-- ===== src/Pre/Reading.antt =====
-- What a reader makes of a payload that was re-encrypted for them.
use core_status.Base.{String, ◌≡◌, ◌≢◌, refl, ◌∙◌, none, some, arith, ◌===◌, ===_iff, false}
use core_status.Data.Errors.{ok}
use core_status.Data.Json.{Json, obj, Fields, field, end, lookup_field, replace_field}
use core_status.Effects.{Env}
use core_status.Pre.{stringify, parse, re_encrypt_payload}
use core_status.Pre.Ends.{Lockboxes, encrypt_payload, decrypt_payload}

-- What is relied on of JSON and of hexadecimal texts: a text of bytes is read back, and so is the text of an object;
-- and the hexadecimal text of an object is neither empty nor JSON, since it begins with 7b, the brace.
pub record ReadsBack (env : Env) : Type 0 where
  pub hex : (s : String) → env.hex_to_bytes (some (env.bytes_to_hex s)) ≡ ok s
  pub json : (fs : Fields) → env.json_parse (env.json_stringify (obj fs)) ≡ some (obj fs)
  pub no_json :
      (fs : Fields) → env.json_parse (env.bytes_to_hex (env.json_stringify (obj fs))) ≡ none
  pub filled : (fs : Fields) → env.bytes_to_hex (env.json_stringify (obj fs)) ≢ ""

-- A buffer is read back from its JSON, and a text from its bytes.
pub record Carries {Buffer : Type 0} (boxes : Lockboxes Buffer) : Type 0 where
  pub text : (s : String) → boxes.to_text (boxes.to_bytes s) ≡ s

-- The key `rk` re-encrypts what was encrypted under `public_key` for the holder of `private_key`: a chunk of two
-- fields is made, whose lockbox is re-encrypted to one that opens, with its content, to the bytes of before.
abbrev pub ReEncryptsFor :
    {Buffer : Type 0} → Env → Lockboxes Buffer → String → String → String → Type 0
ReEncryptsFor {Buffer} env boxes public_key rk private_key =
    (bytes : Buffer)
    → (fs : Fields) × (old new content : Json) × (raw : Buffer) × (boxes.lockbox_encrypt public_key
          bytes
        ≡ obj fs)
      × (lookup_field "lockbox" fs ≡ some old)
      × (lookup_field "content" fs ≡ some content)
      × (env.re_encrypt rk (some old) ≡ ok new)
      × (boxes.buffer_from (some content) ≡ ok raw)
      × (boxes.lockbox_decrypt private_key (some new) raw ≡ ok bytes)

lookup-replace :
    (name : String) (v : Json) (fs : Fields) → lookup_field name (replace_field name v fs) ≡ some v
lookup-replace name v end = rw ((===_iff name name).1 refl) refl
lookup-replace name v (field k w fs) = ground (arith, lookup-replace name v fs, ===_iff k name)

lookup-replace_other :
    (name other : String) (v : Json) (fs : Fields)
    → (name === other) ≡ false
    → lookup_field other (replace_field name v fs) ≡ lookup_field other fs
lookup-replace_other name other v end h = ground arith
lookup-replace_other name other v (field k w fs) h =
    ground (arith, lookup-replace_other name other v fs h, ===_iff k name)

-- The chunk that a chunk of two fields becomes, by its text.
module _ {Buffer : Type 0} (env : Env) (reads : ReadsBack env) (boxes : Lockboxes Buffer)
    (carries : Carries boxes) where
  abbrev chunk_text : Fields → String
  chunk_text fs = env.bytes_to_hex (env.json_stringify (obj fs))

  parse_chunk : (fs : Fields) → parse env (some (chunk_text fs)) ≡ ok (obj fs)
  unfolding parse
  parse_chunk fs = ground (arith, reads.hex (env.json_stringify (obj fs)), reads.json fs)

  re_encrypts_chunk :
      (rk : String) (fs : Fields) (old new : Json)
      → lookup_field "lockbox" fs ≡ some old
      → env.re_encrypt rk (some old) ≡ ok new
      → re_encrypt_payload env (some (chunk_text fs)) rk
        ≡ ok (chunk_text (replace_field "lockbox" new fs))
  unfolding re_encrypt_payload stringify
  re_encrypts_chunk rk fs old new has made = ground (arith, parse_chunk fs)

  decrypts_chunk :
      (sk payload : String) (fs : Fields) (box content : Json) (raw : Buffer)
      → lookup_field "lockbox" fs ≡ some box
      → lookup_field "content" fs ≡ some content
      → boxes.buffer_from (some content) ≡ ok raw
      → boxes.lockbox_decrypt sk (some box) raw ≡ ok (boxes.to_bytes payload)
      → decrypt_payload env boxes (some (chunk_text fs)) sk ≡ ok payload
  unfolding decrypt_payload
  decrypts_chunk sk payload fs box content raw a b c d =
      ground (arith, parse_chunk fs, carries.text payload)

  -- What its owner encrypted and the service then re-encrypted under a key for a reader, the reader decrypts to what it
  -- was; the text between is neither empty nor JSON.
  pub reader_decrypts :
      (public_key rk private_key payload : String)
      (rekeys : ReEncryptsFor env boxes public_key rk private_key)
      → (text : String) × (re_encrypt_payload env
            (some (encrypt_payload env boxes payload public_key))
            rk
          ≡ ok text)
        × (decrypt_payload env boxes (some text) private_key ≡ ok payload)
        × (text ≢ "")
        × (env.json_parse text ≡ none)
  unfolding encrypt_payload stringify
  reader_decrypts public_key rk private_key payload rekeys =
      let (fs, old, new, content, raw, made, box, there, given, read, opened) =
        rekeys (boxes.to_bytes payload) in
      let fs' = replace_field "lockbox" new fs in
      (
        chunk_text fs',
        rw made (re_encrypts_chunk rk fs old new box given),
        decrypts_chunk private_key payload fs' new content raw (lookup-replace "lockbox" new fs)
            (lookup-replace_other "lockbox" "content" new fs refl ∙ there) read opened,
        reads.filled fs',
        reads.no_json fs',
      )
