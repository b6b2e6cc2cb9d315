-- ===== src/Subscribers/Laws.antt =====
-- The calls of the subscribers write to no table, and in which order they reach PubNub.
use core_status.Base.{◌≡◌, some, [], ◌∷◌, ◌++◌, arith, ◌===◌}
use mathlib.Core.List.{append_assoc}
use core_status.Data.Errors.{ok}
use core_status.Data.Entities.{Grant, Stream}
use core_status.Data.Messages.{PubnubNotification, unsubscribe, remove_channels}
use core_status.Effects.{World, Env}
use core_status.Cache.{set, sadd}
use core_status.Pubnub.{
  add_channels_to_pubnub_channel_group, remove_channels_from_pubnub_channel_group,
  subscribe_to_channel, unsubscribe_from_channel, pubnub_publish,
}
use core_status.Subscribers.{
  channel_name, channel_group, join_channel, announce, push_grant_to_channel_group, leave_channel,
  remove_from_channel_group, after_insert,
}

-- The tables of two worlds agree.
pub record SameTables (v w : World) : Type 0 where
  pub grants : v.grants ≡ w.grants
  pub streams : v.streams ≡ w.streams
  pub stream_types : v.stream_types ≡ w.stream_types
  pub updates : v.updates ≡ w.updates
  pub files : v.files ≡ w.files

-- The cache of two worlds agrees.
pub record SameCache (v w : World) : Type 0 where
  pub strings : v.strings ≡ w.strings
  pub sets : v.sets ≡ w.sets

module _ (env : Env) (w : World) where
  join_channel-SameTables :
      (s : Stream) (g : Grant)
      → SameTables (join_channel env s g w).1 w × SameCache (join_channel env s g w).1 w
  unfolding join_channel subscribe_to_channel add_channels_to_pubnub_channel_group
  join_channel-SameTables s g = ground arith

  announce-SameTables :
      (n : PubnubNotification) (g : Grant)
      → SameTables (announce env n g w).1 w × SameCache (announce env n g w).1 w
  unfolding announce pubnub_publish
  announce-SameTables n g = ground arith

  leave_channel-SameTables :
      (s : Stream) (g : Grant)
      → SameTables (leave_channel env s g w).1 w × SameCache (leave_channel env s g w).1 w
  unfolding leave_channel unsubscribe_from_channel remove_channels_from_pubnub_channel_group
  leave_channel-SameTables s g = ground arith

pub push_grant-SameTables :
    (env : Env) (n : PubnubNotification) (g : Grant) (w : World)
    → SameTables (push_grant_to_channel_group env n g w).1 w
      × SameCache (push_grant_to_channel_group env n g w).1 w
unfolding push_grant_to_channel_group
push_grant-SameTables env n g w = grind (arith, join_channel-SameTables, announce-SameTables)

pub remove_from_channel_group-SameTables :
    (env : Env) (g : Grant) (w : World)
    → SameTables (remove_from_channel_group env g w).1 w
      × SameCache (remove_from_channel_group env g w).1 w
unfolding remove_from_channel_group
remove_from_channel_group-SameTables env g w = grind (arith, leave_channel-SameTables)

pub after_insert-SameTables :
    (env : Env) (g : Grant) (w : World) → SameTables (after_insert env g w).1 w
unfolding after_insert sadd set
after_insert-SameTables env g w = grind (arith, push_grant-SameTables)

-- For a grant on a known stream, a removal that returns has left the channel before the group.
pub remove_from_channel_group_history :
    (env : Env) (g : Grant) (s : Stream) (w w' : World)
    → env.stream_table.find_one (λ x. x.id === g.stream_id) w.streams ≡ ok (some s)
    → remove_from_channel_group env g w ≡ (ok tt, w')
    → w'.history
      ≡ w.history
        ++ unsubscribe (channel_name g.id ∷ [])
          ∷ remove_channels (channel_name g.id ∷ []) (channel_group s g)
          ∷ []
unfolding remove_from_channel_group leave_channel unsubscribe_from_channel
    remove_channels_from_pubnub_channel_group
remove_from_channel_group_history env g s w w' found h = ground (
  arith,
  append_assoc w.history (unsubscribe (channel_name g.id ∷ []) ∷ [])
      (remove_channels (channel_name g.id ∷ []) (channel_group s g) ∷ []),
)
