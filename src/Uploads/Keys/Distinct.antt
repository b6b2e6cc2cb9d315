-- ===== src/Uploads/Keys/Distinct.antt =====
-- The keys of files tell their days and uuids apart.
use Prim.Native.Char.{code}
use Prim.Native.String.{[], ◌∷◌, ◌++◌}
use Prim.Native.Nat.{◌/◌, ◌%◌}
use text.Mathlib.TextLemmas.{nil-append, cons-append, append_assoc, append_cancel_left}
use core_status.Base.{
  ℕ, zero, suc, ◌+◌, ◌-◌, ◌*◌, ◌<◌, ◌≤◌, String, ltb, leb, ◌&&◌, if◌then◌else◌, ◌≡◌, refl, ap, sym,
  ◌∙◌, arith, Bool-cases, inl, inr,
}
use core_status.Uploads.Keys.{Date, digit, digits, decimal, two_digits, to_yyyy_mm_dd, upload_key}

-- What is left of a text behind the digits it begins with, and the number that they add to `n`.
abbrev read : String → ℕ → ℕ × String
read [] n = (n, [])
read (c ∷ s) n =
    let rest = read s (n * 10 + (code c - b'0')) in
    if leb b'0' (code c) && leb (code c) b'9' then rest else (n, c ∷ s)

code-digit : (k : ℕ) → k < 10 → code (digit k) ≡ k + b'0'
code-digit zero h = refl
code-digit (suc zero) h = refl
code-digit (suc (suc zero)) h = refl
code-digit (suc (suc (suc zero))) h = refl
code-digit (suc (suc (suc (suc zero)))) h = refl
code-digit (suc (suc (suc (suc (suc zero))))) h = refl
code-digit (suc (suc (suc (suc (suc (suc zero)))))) h = refl
code-digit (suc (suc (suc (suc (suc (suc (suc zero))))))) h = refl
code-digit (suc (suc (suc (suc (suc (suc (suc (suc zero)))))))) h = refl
code-digit (suc (suc (suc (suc (suc (suc (suc (suc (suc zero))))))))) h = refl
code-digit (suc (suc (suc (suc (suc (suc (suc (suc (suc (suc k)))))))))) h = absurd (omega arith)

read-digit : (k : ℕ) (s : String) (n : ℕ) → k < 10 → read (digit k ∷ s) n ≡ read s (n * 10 + k)
read-digit k s n h = ground (arith, code-digit k h)

read-digits : (fuel n : ℕ) (rest : String) → n ≤ fuel → read (digits fuel n rest) 0 ≡ read rest n
unfolding digits
read-digits zero n rest h = read-digit n rest 0 (omega arith) ∙ ap (read rest) (omega arith)
read-digits (suc fuel) n rest h = ground (
  arith,
  read-digit n rest 0,
  read-digits fuel (n / 10) (digit (n % 10) ∷ rest),
  read-digit (n % 10) rest (n / 10),
)

digits-append : (fuel n : ℕ) (s rest : String) → digits fuel n s ++ rest ≡ digits fuel n (s ++ rest)
unfolding digits
digits-append zero n s rest = cons-append _ s rest
digits-append (suc fuel) n s rest = ground (
  arith,
  cons-append (digit n) s rest,
  cons-append (digit (n % 10)) s rest,
  digits-append fuel (n / 10) (digit (n % 10) ∷ s) rest,
)

read-decimal : (n : ℕ) (rest : String) → read (decimal n ++ rest) 0 ≡ read rest n
read-decimal n rest =
    ap (λ s. read s 0) (digits-append n n [] rest ∙ ap (digits n n) (nil-append rest))
    ∙ read-digits n n rest (omega arith)

read-two_digits : (n : ℕ) (rest : String) → read (two_digits n ++ rest) 0 ≡ read rest n
read-two_digits n rest = elim (Bool-cases (ltb n 10)) [
  | inl small ↦ rw small (
      ap (λ s. read s 0)
        (append_assoc "0" (decimal n) rest
          ∙ cons-append "0" [] (decimal n ++ rest)
          ∙ ap (λ s. "0" ∷ s) (nil-append (decimal n ++ rest)))
      ∙ read-decimal n rest)
  | inr large ↦ rw large (read-decimal n rest)
]

-- A number ends where a dash or a slash stands.
read-dash : (n : ℕ) (x : String) → read ("-" ++ x) n ≡ (n, "-" ++ x)
read-dash n x = rw (cons-append "-" [] x) refl

read-slash : (n : ℕ) (x : String) → read ("/" ++ x) n ≡ (n, "/" ++ x)
read-slash n x = rw (cons-append "/" [] x) refl

-- Two texts that begin with numbers and then agree in what stops them.
split :
    (a b sep x y : String) (m n : ℕ)
    → ((r : String) → read (a ++ r) 0 ≡ read r m)
    → ((r : String) → read (b ++ r) 0 ≡ read r n)
    → ((k : ℕ) (r : String) → read (sep ++ r) k ≡ (k, sep ++ r))
    → a ++ sep ++ x ≡ b ++ sep ++ y
    → (m ≡ n) × (x ≡ y)
split a b sep x y m n first second stops e =
    let same : (m, sep ++ x) ≡ (n, sep ++ y) =
      sym (first (sep ++ x) ∙ stops m x) ∙ ap (λ r. read r 0) e ∙ second (sep ++ y) ∙ stops n y in
    (ap (λ p. p.0) same, append_cancel_left sep x y (ap (λ p. p.1) same))

key_text :
    (d : Date) (uuid : String)
    → upload_key d uuid
      ≡ decimal d.full_year
        ++ "-"
        ++ two_digits (d.month + 1)
        ++ "-"
        ++ two_digits d.date
        ++ "/"
        ++ uuid
unfolding upload_key to_yyyy_mm_dd
key_text d uuid = simp append_assoc refl

-- Two new files have one key only if they have one uuid and were uploaded on one day.
pub upload_key_injective :
    (d e : Date) (u v : String)
    → upload_key d u ≡ upload_key e v
    → (d.full_year ≡ e.full_year) × (d.month ≡ e.month) × (d.date ≡ e.date) × (u ≡ v)
upload_key_injective d e u v same =
    let texts = sym (key_text d u) ∙ same ∙ key_text e v in
    let (years, rest) =
      split (decimal d.full_year) (decimal e.full_year) "-" _ _ d.full_year e.full_year
        (read-decimal d.full_year) (read-decimal e.full_year) read-dash texts in
    let (months, rest') =
      split (two_digits (d.month + 1)) (two_digits (e.month + 1)) "-" _ _ (d.month + 1)
        (e.month + 1) (read-two_digits (d.month + 1)) (read-two_digits (e.month + 1)) read-dash
        rest in
    let (days, uuids) =
      split (two_digits d.date) (two_digits e.date) "/" u v d.date e.date (read-two_digits d.date)
        (read-two_digits e.date) read-slash rest' in
    (years, omega arith, days, uuids)
