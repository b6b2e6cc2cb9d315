-- ===== src/Examples/Workers.antt =====
-- The worker and the channels of the sample system.
use core_status.Base.{◌≡◌, refl, [], ◌∷◌, In, inl}
use core_status.Data.Errors.{ok}
use core_status.Data.Json.{str}
use core_status.Data.Messages.{StatusUpdateDto}
use core_status.Effects.{World}
use core_status.Cache.{
  built_grants_per_stream_key, built_re_encryption_per_grant_key, read_members, read_value,
}
use core_status.Grants.Service.{delete}
use core_status.Subscribers.{
  push_grant_to_channel_group, remove_from_channel_group, channel_name, channel_group,
  grant_notification, grant_json,
}
use core_status.Worker.{handle_status_update_event}
use core_status.Worker.Fanout.{Answers}
use core_status.Worker.Revoked.{forwarded, deleted_grant_still_forwarded}
use core_status.Examples.Sample.{sample, start, early, early_json}

abbrev new_status : StatusUpdateDto
new_status = record {
  id = "update-2";
  stream_id = "stream-1";
  user_id = "alice";
  recorded_at = "spring";
  payload = "cipher";
}

all_answered : (w : World) → Answers sample new_status w
all_answered w = (λ key. refl, λ e h. refl)

abbrev deleted : World
unfolding delete
deleted = (delete sample "early" "alice" start).1

deletes_early : delete sample "early" "alice" start ≡ (ok early, deleted)
unfolding delete remove_from_channel_group core_status.Subscribers.leave_channel
    core_status.Pubnub.unsubscribe_from_channel
    core_status.Pubnub.remove_channels_from_pubnub_channel_group
deletes_early = refl

members_cached :
    read_members sample (start.sets (built_grants_per_stream_key "stream-1")) ≡ early_json ∷ []
unfolding built_grants_per_stream_key read_members
members_cached = refl

key_cached :
    read_value sample (start.strings (built_re_encryption_per_grant_key "early")) ≡ str "key-"
unfolding built_re_encryption_per_grant_key read_value
key_cached = refl

deleted_grant_still_forwarded_example :
    In
      (forwarded sample new_status early
        (read_value sample (start.strings (built_re_encryption_per_grant_key "early"))))
      (handle_status_update_event sample new_status deleted).1.history
deleted_grant_still_forwarded_example =
    deleted_grant_still_forwarded sample "early" "alice" new_status start deleted early
      deletes_early (all_answered deleted) refl (rw members_cached (inl refl)) (rw key_cached refl)
