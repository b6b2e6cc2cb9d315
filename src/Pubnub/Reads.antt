-- ===== src/Pubnub/Reads.antt =====
-- What is read of PubNub (`listPubnubChannelGroup` and `getMessages` of src/products/pubnub/pubnub.ts). The answers
-- are PubNub's, after the calls of the list: `list_channels` of a channel group, `fetch_messages` of channels.
use core_status.Base.{ℕ, String, Bool, true, ◌≡◌, List, [], ◌∷◌, arith}
use core_status.Data.Errors.{Result}
use core_status.Data.Messages.{Effect}
use core_status.Effects.{World, M, ◌>>◌, query}
use core_status.Pubnub.{get_client}

-- `Pubnub.FetchMessagesParameters`
record FetchMessagesParameters : Type 0 where
  channels : List String
  include_meta : Bool
  count : ℕ

module _ {Response : Type 0} where
  unfoldable list_pubnub_channel_group :
      (String → List Effect → Result Response) → String → M Response
  unfolding get_client
  list_pubnub_channel_group list_channels channel_group = do
    get_client
    query (λ w. list_channels channel_group w.history)

  unfoldable get_messages :
      (FetchMessagesParameters → List Effect → Result Response) → String → M Response
  unfolding get_client
  get_messages fetch_messages grant_channel = do
    get_client
    query (λ w.
        fetch_messages (record { channels = grant_channel ∷ []; include_meta = true; count = 25 })
          w.history)

  -- Without a client neither asks PubNub anything, and with one neither changes anything.
  reads_change_nothing :
      (list_channels : String → List Effect → Result Response)
      (fetch_messages : FetchMessagesParameters → List Effect → Result Response) (name : String)
      (w : World)
      → ((list_pubnub_channel_group list_channels name w).1 ≡ w)
        × ((get_messages fetch_messages name w).1 ≡ w)
  unfolding list_pubnub_channel_group get_messages get_client
  reads_change_nothing list_channels fetch_messages name w = (ground arith, ground arith)
