-- ===== src/Examples/Encoding.antt =====
-- A text for each JSON value, read back by a machine with a stack: what the examples take for `JSON.stringify` and
-- `JSON.parse`. A value's text is written before a given rest.
use Prim.Native.Char.{Char, code}
use Prim.Native.String.{[], ◌∷◌}
use core_status.Base.{
  ℕ, zero, suc, String, ◌≡◌, refl, ◌∙◌, Bool, true, false, Option, none, some, ◌==◌, if◌then◌else◌,
}
use core_status.Data.Json.{
  Json, null, bool, num, str, arr, obj, Items, nil, cons, Fields, end, field,
}

pub data Stack : Type 0 where
  base : Stack
  value : Json → Stack → Stack
  items : Items → Stack → Stack
  fields : Fields → Stack → Stack
  text : String → Stack → Stack
  number : ℕ → Stack → Stack

abbrev longer : Char → Stack → Stack
longer c (text s st) = text (c ∷ s) st
longer c st = base

abbrev next_number : Stack → Stack
next_number (number n st) = number (suc n) st
next_number st = base

abbrev close_number : Stack → Stack
close_number (number n st) = value (num n) st
close_number st = base

abbrev close_text : Stack → Stack
close_text (text s st) = value (str s) st
close_text st = base

abbrev add_item : Stack → Stack
add_item (value v (items is st)) = items (cons v is) st
add_item st = base

abbrev close_items : Stack → Stack
close_items (items is st) = value (arr is) st
close_items st = base

abbrev add_field : Stack → Stack
add_field (value v (text k (fields fs st))) = fields (field k v fs) st
add_field st = base

abbrev close_fields : Stack → Stack
close_fields (fields fs st) = value (obj fs) st
close_fields st = base

abbrev step : ℕ → Stack → Stack
step c st =
    if c == b'e'
    then text [] st
    else if c == b'S'
    then close_text st
    else if c == b'F'
    then add_field st
    else if c == b'd'
    then fields end st
    else if c == b'O'
    then close_fields st
    else if c == b'n'
    then value null st
    else if c == b't'
    then value (bool true) st
    else if c == b'f'
    then value (bool false) st
    else if c == b'z'
    then number zero st
    else if c == b's'
    then next_number st
    else if c == b'N'
    then close_number st
    else if c == b'i'
    then items nil st
    else if c == b'I'
    then add_item st
    else if c == b'A'
    then close_items st
    else st

-- After a `c` the next character is one of a text.
abbrev run : String → Bool → Stack → Stack
run [] quoted st = st
run (c ∷ s) true st = run s false (longer c st)
run (c ∷ s) false st = run s (code c == b'c') (step (code c) st)

abbrev text_of : String → String → String
text_of [] rest = "e" ∷ rest
text_of (d ∷ s) rest = text_of s ("c" ∷ (d ∷ rest))

abbrev number_of : ℕ → String → String
number_of zero rest = "z" ∷ rest
number_of (suc n) rest = number_of n ("s" ∷ rest)

abbrev mutual
  json_of : Json → String → String
  json_of null rest = "n" ∷ rest
  json_of (bool true) rest = "t" ∷ rest
  json_of (bool false) rest = "f" ∷ rest
  json_of (num n) rest = number_of n ("N" ∷ rest)
  json_of (str s) rest = text_of s ("S" ∷ rest)
  json_of (arr xs) rest = items_of xs ("A" ∷ rest)
  json_of (obj fs) rest = fields_of fs ("O" ∷ rest)

  items_of : Items → String → String
  items_of nil rest = "i" ∷ rest
  items_of (cons v is) rest = items_of is (json_of v ("I" ∷ rest))

  fields_of : Fields → String → String
  fields_of end rest = "d" ∷ rest
  fields_of (field k v fs) rest = fields_of fs (text_of k (json_of v ("F" ∷ rest)))

run-text :
    (s rest : String) (st : Stack) → run (text_of s rest) false st ≡ run rest false (text s st)
run-text [] rest st = refl
run-text (d ∷ s) rest st = run-text s ("c" ∷ (d ∷ rest)) st

run-number :
    (n : ℕ) (rest : String) (st : Stack)
    → run (number_of n rest) false st ≡ run rest false (number n st)
run-number zero rest st = refl
run-number (suc n) rest st = run-number n ("s" ∷ rest) st

mutual
  run-json :
      (j : Json) (rest : String) (st : Stack)
      → run (json_of j rest) false st ≡ run rest false (value j st)
  run-json null rest st = refl
  run-json (bool true) rest st = refl
  run-json (bool false) rest st = refl
  run-json (num n) rest st = run-number n ("N" ∷ rest) st
  run-json (str s) rest st = run-text s ("S" ∷ rest) st
  run-json (arr xs) rest st = run-items xs ("A" ∷ rest) st
  run-json (obj fs) rest st = run-fields fs ("O" ∷ rest) st

  run-items :
      (is : Items) (rest : String) (st : Stack)
      → run (items_of is rest) false st ≡ run rest false (items is st)
  run-items nil rest st = refl
  run-items (cons v is) rest st =
      run-items is (json_of v ("I" ∷ rest)) st ∙ run-json v ("I" ∷ rest) (items is st)

  run-fields :
      (fs : Fields) (rest : String) (st : Stack)
      → run (fields_of fs rest) false st ≡ run rest false (fields fs st)
  run-fields end rest st = refl
  run-fields (field k v fs) rest st =
      run-fields fs (text_of k (json_of v ("F" ∷ rest))) st
      ∙ run-text k (json_of v ("F" ∷ rest)) (fields fs st)
      ∙ run-json v ("F" ∷ rest) (text k (fields fs st))

abbrev only_value : Stack → Option Json
only_value (value j base) = some j
only_value st = none

abbrev pub stringify : Json → String
stringify j = "j" ∷ json_of j []

abbrev pub parse : String → Option Json
parse [] = none
parse (c ∷ s) = if code c == b'j' then only_value (run s false base) else none

pub parse-stringify : (j : Json) → parse (stringify j) ≡ some j
parse-stringify j = λ i. only_value (run-json j [] base i)
