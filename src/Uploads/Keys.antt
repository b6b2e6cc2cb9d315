-- ===== src/Uploads/Keys.antt =====
-- The keys of new files: `toYyyyMmDd` (src/products/util/util.ts) and the template of `upload`
-- (src/products/services/upload.service.ts). A date is its local year, month and day.
pub mod Distinct
use Prim.Native.Char.{Char}
use Prim.Native.String.{[], ◌∷◌, ◌++◌}
use Prim.Native.Nat.{◌/◌, ◌%◌}
use core_status.Base.{ℕ, zero, suc, ◌+◌, String, ltb, ◌==◌, if◌then◌else◌}

-- `getFullYear`, `getMonth`, which counts from 0, and `getDate`
pub record Date : Type 0 where
  pub full_year : ℕ
  pub month : ℕ
  pub date : ℕ

abbrev pub digit : ℕ → Char
digit n =
    if n == 0
    then "0"
    else if n == 1
    then "1"
    else if n == 2
    then "2"
    else if n == 3
    then "3"
    else if n == 4
    then "4"
    else if n == 5
    then "5"
    else if n == 6
    then "6"
    else if n == 7
    then "7"
    else if n == 8
    then "8"
    else "9"

-- the digits of a number before a text, with as much fuel as the number
unfoldable pub digits : ℕ → ℕ → String → String
digits zero n rest = digit n ∷ rest
digits (suc fuel) n rest =
    let before = digits fuel (n / 10) (digit (n % 10) ∷ rest) in
    if ltb n 10 then digit n ∷ rest else before

-- `${n}`
abbrev pub decimal : ℕ → String
decimal n = digits n n []

-- `n < 10 ? `0${n}` : n`
abbrev pub two_digits : ℕ → String
two_digits n = if ltb n 10 then "0" ++ decimal n else decimal n

unfoldable pub to_yyyy_mm_dd : Date → String
to_yyyy_mm_dd d = decimal d.full_year ++ "-" ++ two_digits (d.month + 1) ++ "-" ++ two_digits d.date

-- `file.key`
unfoldable pub upload_key : Date → String → String
unfolding to_yyyy_mm_dd
upload_key d uuid = to_yyyy_mm_dd d ++ "/" ++ uuid
