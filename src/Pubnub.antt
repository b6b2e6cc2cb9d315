-- ===== src/Pubnub.antt =====
-- The PubNub calls (src/products/pubnub/pubnub.ts) and the fluent notification (src/products/pubnub/notification.ts).
mod Reads
pub mod Waiting
use core_status.Base.{String, true, not, List}
use core_status.Data.Errors.{failure}
use core_status.Data.Messages.{
  PubnubNotification, subscribe, unsubscribe, add_channels, remove_channels, publish_notification,
}
use core_status.Effects.{World, Env, M, ◌>>◌, call, catch, pure, throw_if}

-- `getClient`
unfoldable pub get_client : M (Unit {0})
get_client w = throw_if (not w.pubnub_ready) (failure "" "MISSING_REALTIME_TRANSPORT_CLIENT") w

-- `addListener` creates the client.
unfoldable pub add_listener : World → World
add_listener w = record w { pubnub_ready = true }

unfoldable pub add_channels_to_pubnub_channel_group : Env → List String → String → M (Unit {0})
unfolding get_client
add_channels_to_pubnub_channel_group env channels group = do
  get_client
  call env (add_channels channels group)

unfoldable pub remove_channels_from_pubnub_channel_group : Env → List String → String → M (Unit {0})
unfolding get_client
remove_channels_from_pubnub_channel_group env channels group = do
  get_client
  call env (remove_channels channels group)

unfoldable pub subscribe_to_channel : Env → List String → M (Unit {0})
unfolding get_client
subscribe_to_channel env channels = do get_client; call env (subscribe channels)

unfoldable pub unsubscribe_from_channel : Env → List String → M (Unit {0})
unfolding get_client
unsubscribe_from_channel env channels = do get_client; call env (unsubscribe channels)

-- `pubnubPublish`; the message is built from the notification's fields alone, and a publication that fails is
-- logged by its callback and not thrown.
unfoldable pub pubnub_publish : Env → String → PubnubNotification → M (Unit {0})
unfolding get_client
pubnub_publish env channel payload = do
  get_client
  catch (call env (publish_notification channel payload)) (λ e. pure tt)
