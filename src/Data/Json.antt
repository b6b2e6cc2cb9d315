-- ===== src/Data/Json.antt =====
-- JSON values, and how JavaScript reads them: fields, truthiness.
use core_status.Base.{
  ℕ, String, Bool, true, false, not, Option, none, some, ◌===◌, ◌==◌, if◌then◌else◌,
}

mutual
  pub data Json : Type 0 where
    null : Json
    bool : Bool → Json
    num : ℕ → Json
    str : String → Json
    arr : Items → Json
    obj : Fields → Json

  pub data Items : Type 0 where
    nil : Items
    cons : Json → Items → Items

  pub data Fields : Type 0 where
    end : Fields
    field : String → Json → Fields → Fields

abbrev pub lookup_field : String → Fields → Option Json
lookup_field name end = none
lookup_field name (field k v fs) = if k === name then some v else lookup_field name fs

-- `value.name`, with `none` for `undefined`
abbrev pub get_field : String → Json → Option Json
get_field name (obj fs) = lookup_field name fs
get_field name _ = none

abbrev pub replace_field : String → Json → Fields → Fields
replace_field name v end = field name v end
replace_field name v (field k w fs) =
    if k === name then field k v fs else field k w (replace_field name v fs)

-- `!!value`
abbrev pub truthy : Json → Bool
truthy null = false
truthy (bool b) = b
truthy (num n) = not (n == 0)
truthy (str s) = not (s === "")
truthy (arr _) = true
truthy (obj _) = true
