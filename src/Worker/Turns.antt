-- ===== src/Worker/Turns.antt =====
-- The calls for the grants of a stream under `Promise.allSettled`, as they really run: each reads its key and then
-- sends its message, and between these two any other call may take its turn (worker/src/subscribers/grant.subscriber.ts).
pub mod Halves
pub mod Bounded
pub mod AnyOrder
use core_status.Base.{ℕ, zero, suc, ◌≡◌, Option, List, [], ◌∷◌, ◌++◌, map, if◌then◌else◌, arith}
use core_status.Data.Errors.{Error, Result, ok, err}
use core_status.Data.Json.{Json, truthy}
use core_status.Data.Messages.{StatusUpdateDto}
use core_status.Effects.{World, Env, M, pure, ◌>>=◌, query, catch}
use core_status.Cache.{get, built_re_encryption_per_grant_key}
use core_status.Worker.{text_of, members_of, pre_update, publish_pre_status_update, forward}

-- `id`, `recipient_id` and the key
abbrev pub Keyed : Type 0
Keyed = (Option Json × Option Json) × Json

-- the call up to the answer of Redis
unfoldable pub read_key : Env → Json → M Keyed
read_key env grant = do
  members ← query (λ w. members_of grant)
  key ← get env (built_re_encryption_per_grant_key (text_of env members.0))
  pure (members, key)

-- the call from there on
unfoldable pub send_for : Env → StatusUpdateDto → Keyed → M (Unit {0})
unfolding publish_pre_status_update
send_for env update (members, key) =
    if truthy key
    then publish_pre_status_update env (text_of env members.0)
        (pre_update env update members.0 members.1 key)
    else pure tt

pub data Call : Type 0 where
  started : Json → Call
  keyed : Keyed → Call
  finished : Call

pub record Calls : Type 0 where
  pub calls : List Call
  pub world : World

-- One call takes its turn: it reads its key, or throws and is done, or sends and is done, however that ends.
pub data Turn (env : Env) (update : StatusUpdateDto) (s t : Calls) : Type 0 where
  reads :
      (before after : List Call) (grant : Json) (r : Keyed) (w : World)
      → s.calls ≡ before ++ started grant ∷ after
      → read_key env grant s.world ≡ (ok r, w)
      → t ≡ record { calls = before ++ keyed r ∷ after; world = w }
      → Turn env update s t
  fails :
      (before after : List Call) (grant : Json) (e : Error) (w : World)
      → s.calls ≡ before ++ started grant ∷ after
      → read_key env grant s.world ≡ (err e, w)
      → t ≡ record { calls = before ++ finished ∷ after; world = w }
      → Turn env update s t
  sends :
      (before after : List Call) (r : Keyed) (result : Result (Unit {0})) (w : World)
      → s.calls ≡ before ++ keyed r ∷ after
      → send_for env update r s.world ≡ (result, w)
      → t ≡ record { calls = before ++ finished ∷ after; world = w }
      → Turn env update s t

-- a number of turns
pub data Turns (env : Env) (update : StatusUpdateDto) (s : Calls) : ℕ → Calls → Type 0 where
  here : Turns env update s zero s
  later :
      {n : ℕ} {t u : Calls}
      → Turns env update s n t
      → Turn env update t u
      → Turns env update s (suc n) u

abbrev pub at_start : List Json → World → Calls
at_start grants w = record { calls = map (λ g. started g) grants; world = w }

-- The two halves make the call.
forward_halves :
    (env : Env) (update : StatusUpdateDto) (grant : Json) (w : World)
    → forward env update grant w ≡ (read_key env grant >>= send_for env update) w
unfolding forward read_key send_for
forward_halves env update grant w = ground arith
