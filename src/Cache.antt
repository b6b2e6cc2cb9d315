-- ===== src/Cache.antt =====
-- The cache in Redis (src/products/services/cache.service.ts).
pub mod Keys
pub mod Laws
pub mod Members
use Prim.Native.String.{◌++◌}
use core_status.Base.{String, Bool, true, false, Option, none, some, List, [], ◌∷◌}
use core_status.Data.Errors.{Result, ok, err}
use core_status.Data.Json.{Json, null, bool, num, str, arr, obj}
use core_status.Effects.{World, Env, M, ◌>>=◌, pure, query, store}

unfoldable pub build_status_update_key : String → String → String → String
build_status_update_key recipient_id stream_id update_id =
    "status-update:" ++ recipient_id ++ ":" ++ stream_id ++ ":" ++ update_id

unfoldable pub built_grants_per_stream_key : String → String
built_grants_per_stream_key stream_id = "stream-grants:" ++ stream_id

unfoldable pub built_re_encryption_per_grant_key : String → String
built_re_encryption_per_grant_key grant_id = "grant-reencryption-key:" ++ grant_id

-- `JSON.parse(value)` in a `try`: a text that is no JSON is returned as it is, a missing value is null.
unfoldable pub read_value : Env → Option String → Json
read_value env none = null
read_value env (some value) = elim (env.json_parse value) [ none ↦ str value | some j ↦ j ]

-- `value.map(el => JSON.parse(el))` in a `try`: one text that is no JSON, and all are returned as they are.
parse_all : Env → List String → Option (List Json)
parse_all env [] = some []
parse_all env (v ∷ vs) = elim (env.json_parse v) [
  | none ↦ none
  | some j ↦ elim (parse_all env vs) [ none ↦ none | some js ↦ some (j ∷ js) ]
]

as_texts : List String → List Json
as_texts [] = []
as_texts (v ∷ vs) = str v ∷ as_texts vs

unfoldable pub read_members : Env → List String → List Json
unfolding parse_all as_texts
read_members env vs = elim (parse_all env vs) [ none ↦ as_texts vs | some js ↦ js ]

-- What is sent to Redis for a value: objects, arrays and null as JSON; the others are turned into text.
unfoldable pub write_value : Env → Json → String
write_value env null = env.json_stringify null
write_value env (bool b) = env.json_stringify (bool b)
write_value env (num n) = env.json_stringify (num n)
write_value env (str s) = s
write_value env (arr xs) = env.json_stringify (arr xs)
write_value env (obj fs) = env.json_stringify (obj fs)

unfoldable pub get : Env → String → M Json
unfolding read_value
get env key = do value ← query (λ w. env.redis_get key w.strings); pure (read_value env value)

unfoldable pub set : Env → String → Json → M (Unit {0})
unfolding write_value
set env key value w =
    store (env.redis_set key (write_value env value) w.strings) (λ m. record w { strings = m }) w

unfoldable pub smembers : Env → String → M (List Json)
unfolding read_members
smembers env key = do
  value ← query (λ w. env.redis_smembers key w.sets)
  pure (read_members env value)

unfoldable pub sadd : Env → String → String → M (Unit {0})
sadd env key value w = store (env.redis_sadd key value w.sets) (λ m. record w { sets = m }) w
