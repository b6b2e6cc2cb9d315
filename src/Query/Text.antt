-- ===== src/Query/Text.antt =====
-- `split` and `join` on texts.
use Prim.Native.Char.{Char, code}
use Prim.Native.String.{[], ◌∷◌, ◌++◌}
use mathlib.Core.List as L
use text.Mathlib.TextLemmas.{cons-append}
use core_status.Base.{
  ℕ, String, ◌≡◌, ◌≢◌, ap, sym, ◌∙◌, arith, Bool, true, false, List, if◌then◌else◌, ◌==◌, ◌&&◌,
}

abbrev push : String → Char → String
push s c = s ++ (c ∷ [])

-- `split(",")`
unfoldable pub split_comma : String → String → List String
split_comma cur [] = L.◌∷◌ cur L.[]
split_comma cur (c ∷ s) =
    let cut = L.◌∷◌ cur (split_comma "" s) in
    let longer = split_comma (push cur c) s in if code c == b',' then cut else longer

-- `split(", ")`
unfoldable pub split_list : String → String → List String
split_list cur [] = L.◌∷◌ cur L.[]
split_list cur (c ∷ []) = L.◌∷◌ (push cur c) L.[]
split_list cur (c ∷ (d ∷ s)) =
    let cut = L.◌∷◌ cur (split_list "" s) in
    let longer = split_list (push cur c) (d ∷ s) in
    if code c == b',' && code d == b' ' then cut else longer

-- `join(separator)`
unfoldable pub join : String → List String → String
join sep L.[] = ""
join sep (L.◌∷◌ x L.[]) = x
join sep (L.◌∷◌ x (L.◌∷◌ y xs)) = x ++ sep ++ join sep (L.◌∷◌ y xs)

-- a dot in the text: `key.includes(".")`
unfoldable pub has_dot : String → Bool
has_dot [] = false
has_dot (c ∷ s) = if code c == b'.' then true else has_dot s

-- the first code point
abbrev first : String → ℕ
first [] = 0
first (c ∷ s) = code c

first_of : (c : Char) (s x : String) → first ((c ∷ s) ++ x) ≡ code c
first_of c s x = ap first (cons-append c s x)

pub space_filled : (x : String) → " " ++ x ≢ ""
space_filled x e = absurd (omega (arith, sym (first_of " " "" x) ∙ ap first e))
