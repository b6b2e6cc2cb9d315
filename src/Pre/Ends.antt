-- ===== src/Pre/Ends.antt =====
-- The two ends of a payload's way (src/products/util/pre.ts): its owner encrypts it, its reader decrypts it. Buffers
-- and lockboxes are the runtime's and the cryptography library's.
use core_status.Base.{String, Option}
use core_status.Data.Errors.{Result, ok, err, type_error, ◌>>=◌}
use core_status.Data.Json.{Json, null, get_field}
use core_status.Effects.{Env}
use core_status.Pre.{stringify, parse}

-- `Buffer` is the runtime's.
pub record Lockboxes (Buffer : Type 0) : Type 0 where
  -- `Buffer.from(text, 'utf8')` and `toString('utf8')`
  pub to_bytes : String → Buffer
  pub to_text : Buffer → String
  -- `Buffer.from` of a value that was read from JSON
  pub buffer_from : Option Json → Result (Buffer)
  -- `lockboxEncrypt`, as `JSON.stringify` sees what it returns, and `lockboxDecrypt`
  pub lockbox_encrypt : String → Buffer → Json
  pub lockbox_decrypt : String → Option Json → Buffer → Result (Buffer)

unfoldable pub encrypt_payload :
    {Buffer : Type 0} → Env → Lockboxes Buffer → String → String → String
unfolding stringify
encrypt_payload env boxes payload public_key =
    stringify env (boxes.lockbox_encrypt public_key (boxes.to_bytes payload))

-- `chunk.lockbox` and `chunk.content`, which throw at null
abbrev pub chunk_of : Json → Result (Option Json × Option Json)
chunk_of null = err type_error
chunk_of chunk = ok (get_field "lockbox" chunk, get_field "content" chunk)

unfoldable pub decrypt_payload :
    {Buffer : Type 0} → Env → Lockboxes Buffer → Option String → String → Result String
unfolding parse
decrypt_payload env boxes payload private_key = do
  chunk ← parse env payload
  fields ← chunk_of chunk
  content ← boxes.buffer_from fields.1
  bytes ← boxes.lockbox_decrypt private_key fields.0 content
  ok (boxes.to_text bytes)
