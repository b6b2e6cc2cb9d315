-- ===== src/Examples/Catalogue.antt =====
-- Products of the sample system, and a resource whose database fails.
use core_status.Base.{ℕ, String, true, false, Option, none, some}
use core_status.Data.Json.{end, field}
use core_status.Data.Json.{Fields, str}
use core_status.Query.Options.{Query, QueryOptions}
use core_status.Resources.{Thrown, Repository, rejected}

abbrev failed_query : Thrown
failed_query = record {
  name = "QueryFailedError";
  message = "relation does not exist";
  derived = true;
}

abbrev closed : Thrown
closed = record { name = "Error"; message = "connection closed"; derived = false }

-- a repository whose listings are refused and whose other calls find the connection closed
abbrev broken : Repository
broken = record {
  find = λ relations offset limit table. rejected failed_query;
  get_many = λ calls table. rejected failed_query;
  find_one = λ id relations table. rejected closed;
  save = λ entity table. rejected closed;
  blank = end;
}

abbrev everything : Query
everything = record { include = none; filter = none; page = none }

abbrev all_options : QueryOptions
all_options = record {
  relations = none;
  filters = none;
  pagination = record { offset = 0; limit = 0 };
}

abbrev reason : ℕ → String → Option String
reason status message = some "Bad Request"

abbrev named : Fields
named = field "name" (str "box") end
