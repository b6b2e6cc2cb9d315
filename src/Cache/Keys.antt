-- ===== src/Cache/Keys.antt =====
-- The keys of the cache do not collide.
use Prim.Native.Char.{Char, code}
use Prim.Native.String.{[], ◌∷◌, ◌++◌}
use text.Mathlib.TextLemmas.{nil-append, cons-append}
use text.Mathlib.TextLemmas.{append_cancel_left}
use core_status.Base.{ℕ, String, arith, ◌≡◌, ◌≢◌, refl, ap, sym, ◌∙◌}
use core_status.Cache.{
  build_status_update_key, built_grants_per_stream_key, built_re_encryption_per_grant_key,
}

-- The text holds no colon, as a UUID does not.
abbrev pub NoColon : String → Type 0
NoColon [] = Unit
NoColon (c ∷ s) = (code c ≢ b':') × NoColon s

-- the first code point
abbrev first : String → ℕ
first [] = 0
first (c ∷ s) = code c

first_of : (c : Char) (s x : String) → first ((c ∷ s) ++ x) ≡ code c
first_of c s x = ap first (cons-append c s x)

first_colon : (x : String) → first (":" ++ x) ≡ b':'
first_colon x = first_of ":" "" x

-- A text without a colon ends where the first colon stands.
split_colon :
    (a b x y : String) → NoColon a → NoColon b → a ++ ":" ++ x ≡ b ++ ":" ++ y → (a ≡ b) × (x ≡ y)
split_colon [] [] x y p q e = (refl, append_cancel_left ":" x y (simp nil-append at e))
split_colon [] (d ∷ b) x y p q e =
    let h : ":" ++ x ≡ (d ∷ (b ++ ":" ++ y)) = simp (nil-append, cons-append) at e in
    absurd (q.0 (sym (ap first h) ∙ first_colon x))
split_colon (c ∷ a) [] x y p q e =
    let h : (c ∷ (a ++ ":" ++ x)) ≡ ":" ++ y = simp (nil-append, cons-append) at e in
    absurd (p.0 (ap first h ∙ first_colon y))
split_colon (c ∷ a) (d ∷ b) x y p q e =
    let h : (c ∷ (a ++ ":" ++ x)) ≡ (d ∷ (b ++ ":" ++ y)) = simp cons-append at e in
    let (s, t) = split_colon a b x y p.1 q.1 (cc) in (cc, t)

-- Two status updates of two recipients have one key only if recipient, stream and update agree.
pub build_status_update_key_injective :
    (r s u r' s' u' : String)
    → NoColon r
    → NoColon r'
    → NoColon s
    → NoColon s'
    → build_status_update_key r s u ≡ build_status_update_key r' s' u'
    → (r ≡ r') × (s ≡ s') × (u ≡ u')
unfolding build_status_update_key
build_status_update_key_injective r s u r' s' u' p p' q q' e =
    let (same_r, rest) = split_colon r r' _ _ p p' (append_cancel_left "status-update:" _ _ e) in
    let (same_s, same_u) = split_colon s s' u u' q q' rest in (same_r, same_s, same_u)

-- the third code point
abbrev third : String → ℕ
third [] = 0
third (_ ∷ []) = 0
third (_ ∷ (_ ∷ [])) = 0
third (_ ∷ (_ ∷ (c ∷ _))) = code c

third_of : (a b c : Char) (s x : String) → third ((a ∷ (b ∷ (c ∷ s))) ++ x) ≡ code c
third_of a b c s x = rw (cons-append, cons-append, cons-append) refl

-- The three families of keys are disjoint, so the sets and the strings of the cache share no key.
pub cache_keys_disjoint :
    (r s u stream grant : String)
    → (build_status_update_key r s u ≢ built_grants_per_stream_key stream)
      × (build_status_update_key r s u ≢ built_re_encryption_per_grant_key grant)
      × (built_grants_per_stream_key stream ≢ built_re_encryption_per_grant_key grant)
unfolding build_status_update_key built_grants_per_stream_key built_re_encryption_per_grant_key
cache_keys_disjoint r s u stream grant = (
  λ e. absurd (omega (arith, sym status ∙ ap third e ∙ third_of "s" "t" "r" "eam-grants:" stream)),
  λ e. absurd (omega (arith, sym (first_of "s" "tatus-update:" rest) ∙ ap first e ∙ grants)),
  λ e. absurd (omega (arith, sym (first_of "s" "tream-grants:" stream) ∙ ap first e ∙ grants)),
)
  where
    rest : String
    rest = r ++ ":" ++ s ++ ":" ++ u

    status : third ("status-update:" ++ rest) ≡ b'a'
    status = third_of "s" "t" "a" "tus-update:" rest

    grants : first ("grant-reencryption-key:" ++ grant) ≡ b'g'
    grants = first_of "g" "rant-reencryption-key:" grant
