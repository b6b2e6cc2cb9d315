-- ===== src/Resources/Update/OwnFields.antt =====
-- What an update can write.
use mathlib.Core.Bool.{true≢false}
use core_status.Base.{
  ◌≡◌, refl, ◌∙◌, sym, inl, inr, String, Bool, true, false, Option, none, some, List, ◌===◌,
  Bool-cases,
}
use core_status.Data.Errors.{ok}
use core_status.Data.Json.{Json, Fields, null, bool, num, str, arr, obj, end, field, get_field}
use core_status.Resources.{Settled, resolved, rejected, Repository, put_field}
use core_status.Resources.Update.{
  has_own_property, assign_own, object_keys, relations_of, remove_field, put_defined, put_data,
  put_relation, assign_relations, assigned, saved_entity, save_assigned, update,
}

module _ (name : String) where
  put_field-lacks :
      (key : String) (value : Json) (fs : Fields)
      → has_own_property key fs ≡ true
      → has_own_property name fs ≡ false
      → has_own_property name (put_field key value fs) ≡ false
  put_field-lacks key value end has lacks = absurd (true≢false (sym has))
  put_field-lacks key value (field k v fs) has lacks = elim (Bool-cases (k === name)) [
    | inl e ↦ absurd (true≢false (rw e at lacks))
    | inr e ↦ elim (Bool-cases (k === key)) [
      | inl is ↦ rw (is, e) (rw e at lacks)
      | inr is_not ↦
          rw (is_not, e) (put_field-lacks key value fs (rw is_not at has) (rw e at lacks))
    ]
  ]

  remove_field-lacks :
      (key : String) (fs : Fields)
      → has_own_property name fs ≡ false
      → has_own_property name (remove_field key fs) ≡ false
  remove_field-lacks key end lacks = refl
  remove_field-lacks key (field k v fs) lacks = elim (Bool-cases (k === name)) [
    | inl e ↦ absurd (true≢false (rw e at lacks))
    | inr e ↦ elim (Bool-cases (k === key)) [
      | inl is ↦ rw is (rw e at lacks)
      | inr is_not ↦ rw (is_not, e) (remove_field-lacks key fs (rw e at lacks))
    ]
  ]

  assign_own-lacks :
      (dto entity : Fields)
      → has_own_property name entity ≡ false
      → has_own_property name (assign_own dto entity) ≡ false
  assign_own-lacks end entity lacks = lacks
  assign_own-lacks (field key value dto) entity lacks =
      elim (Bool-cases (has_own_property key entity)) [
        | inl e ↦ rw e (
            assign_own-lacks dto (put_field key value entity)
              (put_field-lacks key value entity e lacks))
        | inr e ↦ rw e (assign_own-lacks dto entity lacks)
      ]

  put_defined-lacks :
      (key : String) (value : Option Json) (entity : Fields)
      → has_own_property key entity ≡ true
      → has_own_property name entity ≡ false
      → has_own_property name (put_defined key value entity) ≡ false
  put_defined-lacks key none entity has lacks = remove_field-lacks key entity lacks
  put_defined-lacks key (some value) entity has lacks = put_field-lacks key value entity has lacks

  -- Of what is settled, the name is no field.
  abbrev Lacks : Settled Fields → Type 0
  Lacks (resolved entity) = has_own_property name entity ≡ false
  Lacks (rejected thrown) = Unit

  put_data-Lacks :
      (key : String) (value : Json) (entity : Fields)
      → has_own_property key entity ≡ true
      → has_own_property name entity ≡ false
      → Lacks (put_data key value entity)
  put_data-Lacks key null entity has lacks = tt
  put_data-Lacks key (bool b) entity has lacks = remove_field-lacks key entity lacks
  put_data-Lacks key (num n) entity has lacks = remove_field-lacks key entity lacks
  put_data-Lacks key (str s) entity has lacks = remove_field-lacks key entity lacks
  put_data-Lacks key (arr xs) entity has lacks = remove_field-lacks key entity lacks
  put_data-Lacks key (obj fs) entity has lacks =
      put_defined-lacks key (get_field "data" (obj fs)) entity has lacks

  put_relation-Lacks :
      (b : Bool) (key : String) (value : Json) (entity : Fields)
      → has_own_property key entity ≡ b
      → has_own_property name entity ≡ false
      → Lacks (put_relation b key value entity)
  put_relation-Lacks true key value entity has lacks = put_data-Lacks key value entity has lacks
  put_relation-Lacks false key value entity has lacks = lacks

  assign_relations-Lacks :
      (fs : Fields) (entity : Settled Fields) → Lacks entity → Lacks (assign_relations fs entity)
  assign_relations-Lacks end entity lacks = lacks
  assign_relations-Lacks (field key value fs) (rejected thrown) lacks = tt
  assign_relations-Lacks (field key value fs) (resolved entity) lacks =
      assign_relations-Lacks fs (put_relation (has_own_property key entity) key value entity)
        (put_relation-Lacks (has_own_property key entity) key value entity refl lacks)

  assigned-Lacks :
      (dto : Fields) (found : Settled Fields) → Lacks found → Lacks (assigned dto found)
  assigned-Lacks dto (resolved entity) lacks =
      assign_relations-Lacks (relations_of dto) (resolved (assign_own dto entity))
        (assign_own-lacks dto entity lacks)
  assigned-Lacks dto (rejected thrown) lacks = tt

module _ (repository : Repository)
    (find_one_or_fail : String → List String → List Fields → Settled Fields) (id : String)
    (dto : Fields) (table : List Fields) where
  -- what is passed to `save`: the fields of a stored row alone
  abbrev Saves : Fields → List Fields → Type 0
  Saves answer table' =
      (found : Fields) × (stored : Fields) × (find_one_or_fail id (object_keys (relations_of dto))
          table
        ≡ resolved found)
      × (repository.save stored table ≡ resolved (answer, table'))
      × ((name : String)
          → has_own_property name found ≡ false
          → has_own_property name stored ≡ false)

  saved-Saves :
      (found stored : Fields) (settled : Settled (Fields × List Fields)) {answer : Fields}
      {table' : List Fields}
      → find_one_or_fail id (object_keys (relations_of dto)) table ≡ resolved found
      → repository.save stored table ≡ settled
      → ((name : String) → Lacks name (resolved found) → Lacks name (resolved stored))
      → saved_entity table settled ≡ (ok answer, table')
      → Saves answer table'
  saved-Saves found stored (resolved (answer, table')) is saves own h =
      (found, stored, is, saves ∙ cc, own)
  saved-Saves found stored (rejected thrown) is saves own h = cc

  assigned-Saves :
      (found : Fields) (settled : Settled Fields) {answer : Fields} {table' : List Fields}
      → find_one_or_fail id (object_keys (relations_of dto)) table ≡ resolved found
      → ((name : String) → Lacks name (resolved found) → Lacks name settled)
      → save_assigned repository table settled ≡ (ok answer, table')
      → Saves answer table'
  assigned-Saves found (resolved stored) is own h =
      saved-Saves found stored (repository.save stored table) is refl own h
  assigned-Saves found (rejected thrown) is own h = cc

  found-Saves :
      (found : Settled Fields) {answer : Fields} {table' : List Fields}
      → find_one_or_fail id (object_keys (relations_of dto)) table ≡ found
      → save_assigned repository table (assigned dto found) ≡ (ok answer, table')
      → Saves answer table'
  found-Saves (resolved found) is h =
      assigned-Saves found (assigned dto (resolved found)) is
        (λ name. assigned-Lacks name dto (resolved found)) h
  found-Saves (rejected thrown) is h = cc

  -- An update that succeeds has stored a row that was found, with no field that the row did not have.
  update-Saves :
      (answer : Fields) (table' : List Fields)
      → update repository find_one_or_fail id dto table ≡ (ok answer, table')
      → Saves answer table'
  unfolding update
  update-Saves answer table' h =
      found-Saves (find_one_or_fail id (object_keys (relations_of dto)) table) refl h
