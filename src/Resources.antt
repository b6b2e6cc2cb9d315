-- ===== src/Resources.antt =====
-- Resources that are listed, read and created by inheritance (src/products/services/base.service.ts and
-- src/products/controllers/container.controller.ts), and how every answer is wrapped (src/products/commons/transformer).
mod Update
pub mod Wrapped
use core_status.Base.{
  ℕ, String, Bool, true, false, Option, none, some, List, [], ◌∷◌, length, map, if◌then◌else◌,
  ◌===◌,
}
use core_status.Data.Errors.{
  Error, http, response, failure, pending, crashed, Result, ok, err, response_exception,
}
use core_status.Data.Json.{
  Json, Items, Fields, null, num, str, arr, obj, nil, cons, end, field, truthy,
}
use core_status.Query.Options.{Query, QueryOptions, Filters, query_params}
use core_status.Query.Builder.{Call, query_calls}

-- A thrown `Error`: its name and message, and whether its class derives from `Error` instead of being `Error` itself.
pub record Thrown : Type 0 where
  pub name : String
  pub message : String
  pub derived : Bool

-- what a promise of the repository settles with
pub data Settled (A : Type 0) : Type 0 where
  resolved : A → Settled A
  rejected : Thrown → Settled A

-- A TypeORM repository over the rows of its table: `find` with relations, skip and take, the rows of a query builder
-- after its calls, `findOne` by id with relations, `save`, and the entity that `create()` makes.
pub record Repository : Type 0 where
  pub find : Option (List String) → ℕ → ℕ → List Fields → Settled (List Fields)
  pub get_many : List Call → List Fields → Settled (List Fields)
  pub find_one : String → Option (List String) → List Fields → Settled (Option Fields)
  pub save : Fields → List Fields → Settled (Fields × List Fields)
  pub blank : Fields

-- What a handler returns: rows, a row or none, or an error as a value.
pub data Returned : Type 0 where
  rows : List Fields → Returned
  one : Option Fields → Returned
  error_value : Thrown → Returned

-- `.catch(error => error)`
abbrev pub caught_rows : Settled (List Fields) → Returned
caught_rows (resolved found) = rows found
caught_rows (rejected thrown) = error_value thrown

abbrev pub caught_one : Settled (Option Fields) → Returned
caught_one (resolved found) = one found
caught_one (rejected thrown) = error_value thrown

-- `BaseService.find`
unfoldable pub find : Repository → QueryOptions → List Fields → Returned
unfolding query_calls
find repository options table = elim options.filters [
  | none ↦
      caught_rows
        (repository.find options.relations options.pagination.offset options.pagination.limit table)
  | some filters ↦ caught_rows (repository.get_many (query_calls options filters) table)
]

-- `BaseService.findOne`
unfoldable pub find_one : Repository → String → QueryOptions → List Fields → Returned
find_one repository id options table = caught_one (repository.find_one id options.relations table)

-- `entity[key] = value`
abbrev pub put_field : String → Json → Fields → Fields
put_field key value end = field key value end
put_field key value (field k v fs) =
    if k === key then field k value fs else field k v (put_field key value fs)

-- `for (const key in dto) entity[key] = dto[key]`
abbrev pub assign : Fields → Fields → Fields
assign end entity = entity
assign (field key value dto) entity = assign dto (put_field key value entity)

abbrev pub saved_one : List Fields → Settled (Fields × List Fields) → Returned × List Fields
saved_one table (resolved (entity, table')) = (one (some entity), table')
saved_one table (rejected thrown) = (error_value thrown, table)

-- `BaseService.create`
unfoldable pub create : Repository → Fields → List Fields → Returned × List Fields
create repository dto table = saved_one table (repository.save (assign dto repository.blank) table)

abbrev pub items : List Fields → Items
items [] = nil
items (entity ∷ entities) = cons (obj entity) (items entities)

abbrev pub counted : ℕ → Fields
counted n = field "count" (num n) (field "total" (num n) end)

-- `JsonApiTransformer.intercept`. Of an error that is passed on as a value, JSON keeps no field.
unfoldable pub intercept : Returned → Result Json
intercept (rows entities) =
    ok (
      obj
        (field "data" (arr (items entities)) (field "meta" (obj (counted (length entities))) end)))
intercept (one none) = ok (obj (field "data" (obj end) end))
intercept (one (some entity)) = ok (obj (field "data" (obj entity) end))
intercept (error_value thrown) =
    if thrown.derived
    then err (response_exception thrown.message thrown.name 500)
    else ok (obj (field "data" (obj end) end))

-- One object of `errors`: a missing title or detail is left out.
pub record ErrorObject : Type 0 where
  pub status : ℕ
  pub title : Option String
  pub detail : Option String

-- what a request is answered with; `unhandled` is left to the framework
pub data Response : Type 0 where
  data_of : Json → Response
  errors_of : ℕ → List ErrorObject → Response
  unhandled : Error → Response

abbrev pub given : String → Option String
given text = if text === "" then none else some text

-- `JsonApiExceptionTransformer.catch`. `reason status message` is the `error` that Nest puts beside the message into the
-- body of an `HttpException`, or `none` for an exception whose body is its text.
unfoldable pub catch_exception : (ℕ → String → Option String) → Error → Response
catch_exception reason (response errors title status) =
    errors_of status (record { status = status; title = given title; detail = given errors } ∷ [])
catch_exception reason (http status message) = elim (reason status message) [
  | none ↦ errors_of status (record { status = status; title = none; detail = none } ∷ [])
  | some detail ↦
      errors_of status
        (record { status = status; title = given message; detail = given detail } ∷ [])
]
catch_exception reason (failure code message) = unhandled (failure code message)
catch_exception reason pending = unhandled pending
catch_exception reason crashed = unhandled crashed

-- a handler under the global interceptor and filter
abbrev pub respond : (ℕ → String → Option String) → Result Json → Response
respond reason (ok body) = data_of body
respond reason (err thrown) = catch_exception reason thrown

abbrev pub intercepted : Result Returned → Result Json
intercepted (ok returned) = intercept returned
intercepted (err thrown) = err thrown

-- The handlers of `ContainerController`.
unfoldable pub find_all : (ℕ → String → Option String) → Repository → Query → List Fields → Response
unfolding find intercept catch_exception
find_all reason repository query table = respond reason (
    intercepted (elim (query_params query) [
      | err thrown ↦ err thrown
      | ok options ↦ ok (find repository options table)
    ]))

unfoldable pub find_by_id :
    (ℕ → String → Option String) → Repository → String → Query → List Fields → Response
unfolding find_one intercept catch_exception
find_by_id reason repository id query table = respond reason (
    intercepted (elim (query_params query) [
      | err thrown ↦ err thrown
      | ok options ↦ ok (find_one repository id options table)
    ]))

unfoldable pub create_container :
    (ℕ → String → Option String) → Repository → Fields → List Fields → Response × List Fields
unfolding create intercept catch_exception
create_container reason repository dto table =
    let (returned, table') = create repository dto table in
    (respond reason (intercept returned), table')
