-- ===== src/Base/Text.antt =====
-- Equality of texts, and a membership test.
use mathlib.Core.Path.{◌≡◌}
use mathlib.Core.Logic.{◌↔◌}
use mathlib.Core.Bool.{Bool, true, false}
use mathlib.Core.List.{List, [], ◌∷◌}
use Prim.Native.String.{String}
use text.Mathlib.Text.{◌==◌ as text_eq}
use text.Mathlib.TextEquality.{eq_iff}
use core_status.Base.Tests.{if◌then◌else◌}

infix 50 ◌===◌
-- `===` on strings
abbrev pub ◌===◌ : String → String → Bool
s === t = text_eq s t

pub ===_iff : (s t : String) → ((s === t) ≡ true) ↔ (s ≡ t)
===_iff s t = eq_iff s t

-- `Array.prototype.includes` on strings
abbrev pub includes : List String → String → Bool
includes [] s = false
includes (x ∷ xs) s = if x === s then true else includes xs s
