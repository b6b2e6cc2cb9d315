-- ===== src/Resources/Update.antt =====
-- `update` and `findRelationshipEntity` of src/products/services/base.service.ts. The body's `relations` is an
-- object or is not given. A field that becomes undefined is left out, as JSON and `save` leave it out.
pub mod OwnFields
use Prim.Native.String.{◌++◌}
use core_status.Base.{
  String, Bool, true, false, Option, none, some, List, [], ◌∷◌, ◌===◌, if◌then◌else◌,
}
use core_status.Data.Errors.{Result, ok, err, response_exception}
use core_status.Data.Json.{Json, Fields, null, obj, end, field, lookup_field, get_field}
use core_status.Resources.{Thrown, Settled, resolved, rejected, Repository, put_field}

abbrev has_own_property : String → Fields → Bool
has_own_property key end = false
has_own_property key (field k v fs) = if k === key then true else has_own_property key fs

-- `for (const key in dto)`: of the body's fields, those that the entity has
abbrev assign_own : Fields → Fields → Fields
assign_own end entity = entity
assign_own (field key value dto) entity =
    assign_own dto (if has_own_property key entity then put_field key value entity else entity)

-- `Object.keys`
abbrev object_keys : Fields → List String
object_keys end = []
object_keys (field key value fs) = key ∷ object_keys fs

abbrev fields_of : Option Json → Fields
fields_of (some (obj fs)) = fs
fields_of _ = end

-- `dto["relations"]`
abbrev relations_of : Fields → Fields
relations_of dto = fields_of (lookup_field "relations" dto)

abbrev remove_field : String → Fields → Fields
remove_field key end = end
remove_field key (field k v fs) = if k === key then fs else field k v (remove_field key fs)

abbrev put_defined : String → Option Json → Fields → Fields
put_defined key none entity = remove_field key entity
put_defined key (some value) entity = put_field key value entity

-- `entity[rel] = dto["relations"][rel]["data"]`
abbrev put_data : String → Json → Fields → Settled Fields
put_data key null entity =
    rejected (record {
      name = "TypeError";
      message = "Cannot read property 'data' of null";
      derived = true;
    })
put_data key value entity = resolved (put_defined key (get_field "data" value) entity)

abbrev put_relation : Bool → String → Json → Fields → Settled Fields
put_relation true key value entity = put_data key value entity
put_relation false key value entity = resolved entity

-- `relations.map`
abbrev assign_relations : Fields → Settled Fields → Settled Fields
assign_relations end entity = entity
assign_relations (field key value fs) (rejected thrown) = rejected thrown
assign_relations (field key value fs) (resolved entity) =
    assign_relations fs (put_relation (has_own_property key entity) key value entity)

-- `.catch(error => { throw … })`
abbrev thrown_again : {A : Type 0} → Thrown → Result A
thrown_again thrown = err (response_exception thrown.message thrown.name 400)

abbrev saved_entity : List Fields → Settled (Fields × List Fields) → Result Fields × List Fields
saved_entity table (resolved (entity, table')) = (ok entity, table')
saved_entity table (rejected thrown) = (thrown_again thrown, table)

abbrev save_assigned : Repository → List Fields → Settled Fields → Result Fields × List Fields
save_assigned repository table (resolved entity) = saved_entity table (repository.save entity table)
save_assigned repository table (rejected thrown) = (thrown_again thrown, table)

-- the two loops over what was found
abbrev assigned : Fields → Settled Fields → Settled Fields
assigned dto (resolved entity) =
    assign_relations (relations_of dto) (resolved (assign_own dto entity))
assigned dto (rejected thrown) = rejected thrown

-- `BaseService.update`, where `find_one_or_fail` is `findOneOrFail` of the repository
unfoldable pub update :
    Repository
    → (String → List String → List Fields → Settled Fields)
    → String
    → Fields
    → List Fields
    → Result Fields × List Fields
update repository find_one_or_fail id dto table =
    save_assigned repository table
      (assigned dto (find_one_or_fail id (object_keys (relations_of dto)) table))

-- `entity[relations]`
read_relation : String → Settled (Option Fields) → Settled (Option Json)
read_relation relation (resolved (some entity)) = resolved (lookup_field relation entity)
read_relation relation (resolved none) = rejected (record {
  name = "TypeError";
  message = "Cannot read property '" ++ relation ++ "' of undefined";
  derived = true;
})
read_relation relation (rejected thrown) = rejected thrown

-- `BaseService.findRelationshipEntity`
unfoldable find_relationship_entity :
    Repository → String → String → List Fields → Settled (Option Json)
unfolding read_relation
find_relationship_entity repository id relation table =
    read_relation relation (repository.find_one id (some (relation ∷ [])) table)
