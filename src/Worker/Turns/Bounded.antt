-- ===== src/Worker/Turns/Bounded.antt =====
-- How many turns the calls take.
use core_status.Base.{
  ℕ, zero, suc, ◌≡◌, refl, ◌≤◌, ◌+◌, ◌*◌, List, [], ◌∷◌, ◌++◌, map, length, arith,
}
use core_status.Data.Json.{Json}
use core_status.Data.Messages.{StatusUpdateDto}
use core_status.Effects.{World, Env}
use core_status.Worker.Turns.{
  Call, started, keyed, finished, Calls, Turn, reads, fails, sends, Turns, here, later, at_start,
}

-- the turns that a call may still take
abbrev turns_left : Call → ℕ
turns_left (started grant) = 2
turns_left (keyed r) = 1
turns_left finished = 0

abbrev all_left : List Call → ℕ
all_left [] = 0
all_left (c ∷ cs) = turns_left c + all_left cs

all_left-middle :
    (before : List Call) (c : Call) (after : List Call)
    → all_left (before ++ c ∷ after) ≡ turns_left c + all_left (before ++ after)
all_left-middle [] c after = refl
all_left-middle (b ∷ before) c after = omega (arith, all_left-middle before c after)

all_left-start : (grants : List Json) → all_left (map (λ g. started g) grants) ≡ 2 * length grants
all_left-start [] = refl
all_left-start (g ∷ gs) = omega (arith, all_left-start gs)

module _ (env : Env) (update : StatusUpdateDto) where
  Turn-lowers : (s t : Calls) → Turn env update s t → all_left t.calls + 1 ≤ all_left s.calls
  Turn-lowers s t (reads before after grant r v calls read is) =
      rw (calls, is)
        (omega (
          arith,
          all_left-middle before (started grant) after,
          all_left-middle before (keyed r) after,
        ))
  Turn-lowers s t (fails before after grant e v calls read is) =
      rw (calls, is)
        (omega (
          arith,
          all_left-middle before (started grant) after,
          all_left-middle before finished after,
        ))
  Turn-lowers s t (sends before after r result v calls sending is) =
      rw (calls, is)
        (omega
          (arith, all_left-middle before (keyed r) after, all_left-middle before finished after))

  pub Turns-bounded :
      (grants : List Json) (w : World) (n : ℕ) (t : Calls)
      → Turns env update (at_start grants w) n t
      → n + all_left t.calls ≤ 2 * length grants
  Turns-bounded grants w zero t here = omega (arith, all_left-start grants)
  Turns-bounded grants w (suc n) t (later {t = v} before turn) =
      omega (arith, Turns-bounded grants w n v before, Turn-lowers v t turn)
