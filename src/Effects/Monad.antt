-- ===== src/Effects/Monad.antt =====
-- A call of a service: it may throw, and what it changed before stays changed.
use core_status.Base.{Bool, List, [], ◌∷◌, ◌++◌, if◌then◌else◌, ◌≡◌, refl, ◌⊎◌, inl, inr, arith}
use core_status.Data.Errors.{Result, ok, err, Error}
use core_status.Data.Messages.{Effect}
use core_status.Effects.Worlds.{World, Env}

abbrev pub M : Type 0 → Type 0
M A = World → Result A × World

abbrev pub pure : {A : Type 0} → A → M A
pure a w = (ok a, w)

abbrev pub throw : {A : Type 0} → Error → M A
throw e w = (err e, w)

-- the continuation of a call, by how the call ended
abbrev pub next : {A B : Type 0} → Result A × World → (A → M B) → Result B × World
next (ok a, w) f = f a w
next (err e, w) f = (err e, w)

infixl 5 ◌>>=◌ ◌>>◌
abbrev pub ◌>>=◌ : {A B : Type 0} → M A → (A → M B) → M B
◌>>=◌ m f w = next (m w) f

abbrev pub ◌>>◌ : {B : Type 0} → M (Unit {0}) → M B → M B
m >> k = m >>= λ _. k

-- `try { … } catch (e) { … }`
abbrev pub handle : {A : Type 0} → Result A × World → (Error → M A) → Result A × World
handle (ok a, w) f = (ok a, w)
handle (err e, w) f = f e w

abbrev pub catch : {A : Type 0} → M A → (Error → M A) → M A
catch m f w = handle (m w) f

abbrev pub throw_if : Bool → Error → M (Unit {0})
throw_if c e w = if c then (err e, w) else (ok tt, w)

-- a call that reads the world and may throw
abbrev pub query : {A : Type 0} → (World → Result A) → M A
query f w = (f w, w)

-- a call that throws, or returns a value and a new part of the world
abbrev pub commit : {A S : Type 0} → Result (A × S) → (S → World) → World → Result A × World
commit (ok (a, s)) put w = (ok a, put s)
commit (err e) put w = (err e, w)

abbrev pub store : {S : Type 0} → Result S → (S → World) → World → Result (Unit {0}) × World
store (ok s) put w = (ok tt, put s)
store (err e) put w = (err e, w)

abbrev record_effect : Effect → Result (Unit {0}) → M (Unit {0})
record_effect e (ok _) w = (ok tt, record w { history = w.history ++ e ∷ [] })
record_effect e (err x) w = (err x, w)

-- one call of an outside service
abbrev pub call : Env → Effect → M (Unit {0})
call env e w = record_effect e (env.perform e w.history) w

-- `Promise.all` and `for … of` with `await`, one call after the other
abbrev pub map_calls : {A B : Type 0} → (A → M B) → List A → M (List B)
map_calls f [] = pure []
map_calls f (x ∷ xs) = f x >>= λ y. map_calls f xs >>= λ ys. pure (y ∷ ys)

-- the outcome of each call of `Promise.allSettled`, one call after the other
abbrev settle_next :
    {B : Type 0} → Result B × World → (World → List (Result B) × World) → List (Result B) × World
settle_next (r, w) f = let (rs, w') = f w in (r ∷ rs, w')

abbrev pub all_settled : {A B : Type 0} → (A → M B) → List A → World → List (Result B) × World
all_settled f [] w = ([], w)
all_settled f (x ∷ xs) w = settle_next (f x w) (all_settled f xs)

-- Inversion of a chain of calls that returns.
pub next-eq-ok :
    {A B : Type 0} (r : Result A × World) (f : A → M B) {b : B} {w' : World}
    → next r f ≡ (ok b, w')
    → (a : A) × (w : World) × (r ≡ (ok a, w)) × (f a w ≡ (ok b, w'))
next-eq-ok (ok a, w) f h = (a, w, refl, h)
next-eq-ok (err e, w) f h = cc

-- A call throws because its first part does, or because the rest does.
pub next-eq-err :
    {A B : Type 0} (r : Result A × World) (f : A → M B) {e : Error} {w' : World}
    → next r f ≡ (err e, w')
    → (r ≡ (err e, w')) ⊎ ((a : A) × (w : World) × (r ≡ (ok a, w)) × (f a w ≡ (err e, w')))
next-eq-err (ok a, w) f h = inr (a, w, refl, h)
next-eq-err (err e, w) f h = inl (ground arith)

pub pure-eq-ok : {A : Type 0} {a b : A} {w w' : World} → pure a w ≡ (ok b, w') → (a ≡ b) × (w ≡ w')
pure-eq-ok h = (ground arith, ground arith)
