-- ===== src/Pre.antt =====
-- Payloads under proxy re-encryption (src/products/util/pre.ts). A chunk is a JSON object with the field `lockbox`;
-- the cryptography is a parameter.
pub mod Ends
pub mod Reading
use core_status.Base.{String, Option, none, some}
use core_status.Data.Errors.{Result, ok, err, failure, type_error, ◌>>=◌}
use core_status.Data.Json.{Json, null, obj, get_field, replace_field}
use core_status.Effects.{Env}

unfoldable pub stringify : Env → Json → String
stringify env chunk = env.bytes_to_hex (env.json_stringify chunk)

-- `JSON.parse` throws at a text that is no JSON.
abbrev parsed : Option Json → Result Json
parsed none = err (failure "" "SyntaxError")
parsed (some j) = ok j

unfoldable pub parse : Env → Option String → Result Json
parse env chunk = do text ← env.hex_to_bytes chunk; parsed (env.json_parse text)

-- `chunk.lockbox`, which throws at null
abbrev lockbox_of : Json → Result (Option Json)
lockbox_of null = err type_error
lockbox_of chunk = ok (get_field "lockbox" chunk)

-- `chunk.lockbox = …`; on a value that is no object the write is lost.
abbrev with_lockbox : Json → Json → Json
with_lockbox lockbox (obj fs) = obj (replace_field "lockbox" lockbox fs)
with_lockbox lockbox chunk = chunk

unfoldable pub re_encrypt_payload : Env → Option String → String → Result String
unfolding parse stringify
re_encrypt_payload env payload re_encryption_key = do
  chunk ← parse env payload
  old ← lockbox_of chunk
  lockbox ← env.re_encrypt re_encryption_key old
  ok (stringify env (with_lockbox lockbox chunk))
