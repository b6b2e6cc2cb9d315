-- ===== src/Clients/Interleaving.antt =====
-- Several callers of one client. axios runs a request interceptor as a later microtask, in the order of the
-- requests, and the client's token is a field that all callers share: the calls and the interceptors interleave.
use mathlib.Core.List.{append_assoc}
use core_status.Base.{
  String, ◌≡◌, ◌≢◌, refl, false, Option, none, some, List, [], ◌∷◌, ◌++◌, ===_iff, arith, In, inl,
  inr, ◌⊎◌,
}
use core_status.Data.Errors.{Result, ok, err}
use core_status.Data.Messages.{HttpRequest}
use core_status.Effects.{Env}
use core_status.Clients.{intercept}
use core_status.Clients.Tokens.{authorized}

-- The client: its token, the requests whose interceptor has not run, those that were sent, and, for the
-- statements alone, the tokens that it was given so far.
pub record Client : Type 0 where
  pub token : Option String
  pub pending : List HttpRequest
  pub sent : List HttpRequest
  pub given : List String

abbrev pub fresh : Client
fresh = record { token = none; pending = []; sent = []; given = [] }

-- `this.accessToken = token` and the call of axios, in one turn
abbrev pub call_under : String → HttpRequest → Client → Client
call_under token request c = record c {
  token = some token;
  pending = c.pending ++ request ∷ [];
  given = token ∷ c.given;
}

abbrev pub call_held : HttpRequest → Client → Client
call_held request c = record c { pending = c.pending ++ request ∷ [] }

-- What the interceptor answers goes out, or is refused.
abbrev pub passed : Result HttpRequest → List HttpRequest → Client → Client
passed (ok request) rest c = record c { pending = rest; sent = c.sent ++ request ∷ [] }
passed (err e) rest c = record c { pending = rest }

pub data Step (env : Env) : Client → Client → Type 0 where
  calls_under :
      (c : Client) (token : String) (request : HttpRequest)
      → Step env c (call_under token request c)
  calls_held : (c : Client) (request : HttpRequest) → Step env c (call_held request c)
  intercepts :
      (c : Client) (request : HttpRequest) (rest : List HttpRequest)
      → c.pending ≡ request ∷ rest
      → Step env c (passed (intercept env c.token request) rest c)

pub data Reach (env : Env) (c : Client) : Client → Type 0 where
  here : Reach env c c
  later : {d e : Client} → Reach env c d → Step env d e → Reach env c e

-- The request is under a token that the client was given and that is not empty.
abbrev pub IsUnder : List String → HttpRequest → Type 0
IsUnder given sent =
    (token : String) × (request : HttpRequest) × In token given
    × (token ≢ "")
    × (sent ≡ authorized token request)

-- The token that the client holds was given to it, and so was that of each request that was sent.
pub record Inv (c : Client) : Type 0 where
  pub held : (t : String) → c.token ≡ some t → In t c.given
  pub under : (r : HttpRequest) → In r c.sent → IsUnder c.given r

fresh-Inv : Inv fresh
fresh-Inv = record { held = λ t e. cc; under = λ r i. absurd i }

more :
    (t : String) (given : List String) (r : HttpRequest) → IsUnder given r → IsUnder (t ∷ given) r
more t given r (token, request, i, filled, e) = (token, request, inr i, filled, e)

In-append : {A : Type 0} (x y : A) (xs : List A) → In x (xs ++ y ∷ []) → In x xs ⊎ (x ≡ y)
In-append x y [] (inl e) = inr e
In-append x y [] (inr i) = absurd i
In-append x y (z ∷ zs) (inl e) = inl (inl e)
In-append x y (z ∷ zs) (inr i) = elim (In-append x y zs i) [ inl j ↦ inl (inr j) | inr e ↦ inr e ]

intercept_inv :
    (env : Env) (held : Option String) (request sent : HttpRequest)
    → env.is_debug ≡ false
    → intercept env held request ≡ ok sent
    → (token : String) × (held ≡ some token) × (token ≢ "") × (sent ≡ authorized token request)
unfolding intercept
intercept_inv env none request sent live h = cc
intercept_inv env (some token) request sent live h =
    (token, refl, (λ e. ground (arith, ===_iff token "")), ground (arith, ===_iff token ""))

passed-Inv :
    (c : Client) (request : HttpRequest) (rest : List HttpRequest) (answer : Result HttpRequest)
    → ((r : HttpRequest) → answer ≡ ok r → IsUnder c.given r)
    → Inv c
    → Inv (passed answer rest c)
passed-Inv c request rest (err e) h inv = record { held = inv.held; under = inv.under }
passed-Inv c request rest (ok r) h inv = record {
  held = inv.held;
  under = λ x i. elim (In-append x r c.sent i) [ inl j ↦ inv.under x j | inr e ↦ rw e (h r refl) ];
}

Step-Inv : (env : Env) {c d : Client} → env.is_debug ≡ false → Step env c d → Inv c → Inv d
Step-Inv env live (calls_under c token request) inv = record {
  held = λ t e. inl (cc);
  under = λ r i. more token c.given r (inv.under r i);
}
Step-Inv env live (calls_held c request) inv = record { held = inv.held; under = inv.under }
Step-Inv env live (intercepts c request rest e) inv =
    passed-Inv c request rest (intercept env c.token request)
      (λ r h.
        let (token, held, filled, same) = intercept_inv env c.token request r live h in
        (token, request, inv.held token held, filled, same))
      inv

Reach-Inv : (env : Env) {c d : Client} → env.is_debug ≡ false → Reach env c d → Inv c → Inv d
Reach-Inv env live here inv = inv
Reach-Inv env live (later r s) inv = Step-Inv env live s (Reach-Inv env live r inv)

-- However the callers interleave, outside of debugging no request goes out without a token: each is under a token that
-- is not empty and that some caller gave before.
pub sent_with_given_token :
    (env : Env) (c : Client) (r : HttpRequest)
    → env.is_debug ≡ false
    → Reach env fresh c
    → In r c.sent
    → IsUnder c.given r
sent_with_given_token env c r live reached i = (Reach-Inv env live reached fresh-Inv).under r i

authorizes :
    (env : Env) (token : String) (request : HttpRequest)
    → env.is_debug ≡ false
    → token ≢ ""
    → intercept env (some token) request ≡ ok (authorized token request)
unfolding intercept
authorizes env token request live filled = ground (arith, ===_iff token "")

-- Where two callers set their tokens before the first interceptor runs, the first caller's request goes out under the
-- second caller's token.
tokens_cross :
    (env : Env) (a b : String) (first second : HttpRequest) (c : Client)
    → env.is_debug ≡ false
    → b ≢ ""
    → c.pending ≡ []
    → (d : Client) × Reach env c d
      × (d.pending ≡ [])
      × (d.sent ≡ c.sent ++ authorized b first ∷ authorized b second ∷ [])
tokens_cross env a b first second c live filled idle =
    let c₁ = call_under a first c in
    let c₂ = call_under b second c₁ in
    let c₃ = passed (intercept env (some b) first) (second ∷ []) c₂ in
    let c₄ = passed (intercept env c₃.token second) [] c₃ in
    let r₂ : Reach env c c₂ =
      later (later here (calls_under c a first)) (calls_under c₁ b second) in
    let r₃ : Reach env c c₃ = later r₂ (intercepts c₂ first (second ∷ []) (rw idle)) in
    let one = authorizes env b first live filled in
    let two = authorizes env b second live filled in
    let r₄ : Reach env c c₄ = later r₃ (intercepts c₃ second [] (rw one)) in
    (
      c₄,
      r₄,
      rw (one, two),
      rw (one, two) (append_assoc c.sent (authorized b first ∷ []) (authorized b second ∷ [])),
    )
