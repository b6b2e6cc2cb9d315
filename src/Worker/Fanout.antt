-- ===== src/Worker/Fanout.antt =====
-- Which grants a new status is forwarded to.
use core_status.Base.{String, ◌≡◌, refl, Option, List, [], ◌∷◌, ◌++◌, arith, if◌then◌else◌}
use mathlib.Core.List.{append_assoc, append-nil}
use core_status.Data.Errors.{Result, ok, err}
use core_status.Data.Json.{Json, truthy}
use core_status.Data.Messages.{Effect, StatusUpdateDto, send_pre}
use core_status.Effects.{World, Env, handle, pure}
use core_status.Cache.{
  get, smembers, read_value, read_members, built_grants_per_stream_key,
  built_re_encryption_per_grant_key,
}
use core_status.Worker.{
  text_of, members_of, pre_update, forward, forward_all, handle_status_update_event,
}

-- The handler never throws, whatever the cache and the broker do.
pub handle_status_update_event_total :
    (env : Env) (update : StatusUpdateDto) (w : World)
    → (handle_status_update_event env update w).0 ≡ ok tt
unfolding handle_status_update_event
handle_status_update_event_total env update w = ground arith

module _ (env : Env) (update : StatusUpdateDto) where
  -- the messages for the grants of a list, with the keys of the cache
  abbrev pub message_for :
      (String → Option String) → Result (Option Json × Option Json) → List Effect
  message_for strings (err e) = []
  message_for strings (ok (id, recipient_id)) =
      if truthy (read_value env (strings (built_re_encryption_per_grant_key (text_of env id))))
      then send_pre (text_of env id) (
          pre_update env update id recipient_id
            (read_value env (strings (built_re_encryption_per_grant_key (text_of env id)))))
        ∷ []
      else []

  abbrev pub messages : (String → Option String) → List Json → List Effect
  messages strings [] = []
  messages strings (grant ∷ grants) =
      message_for strings (members_of grant) ++ messages strings grants

  -- Redis and the broker answer every call.
  abbrev pub Answers : World → Type 0
  Answers w =
      ((key : String) → env.redis_get key w.strings ≡ ok (w.strings key))
      × ((e : Effect) (h : List Effect) → env.perform e h ≡ ok tt)

  forward_step :
      (grant : Json) (w : World)
      → Answers w
      → handle (forward env update grant w) (λ e. pure tt)
        ≡ (ok tt, record w { history = w.history ++ message_for w.strings (members_of grant) })
  unfolding forward get
  forward_step grant w (reads, sends) = go (members_of grant) refl
    where
      go :
          (m : Result (Option Json × Option Json))
          → members_of grant ≡ m
          → handle (forward env update grant w) (λ e. pure tt)
            ≡ (ok tt, record w { history = w.history ++ message_for w.strings m })
      go (err e) same = ground (arith, append-nil w.history)
      go (ok (id, recipient_id)) same =
          let key =
            read_value env (w.strings (built_re_encryption_per_grant_key (text_of env id))) in
          ground (
            arith,
            append-nil w.history,
            reads (built_re_encryption_per_grant_key (text_of env id)),
            sends (send_pre (text_of env id) (pre_update env update id recipient_id key)) w.history,
          )

  forward_all_history :
      (grants : List Json) (w : World)
      → Answers w
      → forward_all env update grants w
        ≡ (ok tt, record w { history = w.history ++ messages w.strings grants })
  unfolding forward_all
  forward_all_history [] w a = ground (arith, append-nil w.history)
  forward_all_history (grant ∷ grants) w a =
      let first = message_for w.strings (members_of grant) in
      ground (
        arith,
        forward_step grant w a,
        forward_all_history grants (record w { history = w.history ++ first }) a,
        append_assoc w.history first (messages w.strings grants),
      )

  -- Where Redis and the broker answer, the handler sends one message for each cached grant of the stream
  -- that has a cached key, in order, and does nothing else.
  pub handle_status_update_event_sends :
      (w : World)
      → Answers w
      → env.redis_smembers (built_grants_per_stream_key update.stream_id) w.sets
        ≡ ok (w.sets (built_grants_per_stream_key update.stream_id))
      → handle_status_update_event env update w ≡ (
        ok tt,
        record w {
          history =
              w.history
              ++ messages w.strings
                  (read_members env (w.sets (built_grants_per_stream_key update.stream_id)));
        },
      )
  unfolding handle_status_update_event smembers
  handle_status_update_event_sends w a e = ground (
    arith,
    forward_all_history (read_members env (w.sets (built_grants_per_stream_key update.stream_id))) w
        a,
  )
