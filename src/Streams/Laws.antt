-- ===== src/Streams/Laws.antt =====
-- What the services of streams and stream types answer, on every branch.
use core_status.Base.{
  String, ◌≡◌, refl, sym, ap, ◌∙◌, Bool, true, false, none, some, List, [], ◌∷◌, ◌++◌, arith, In,
  inl, inr, ◌===◌, ===_iff, ◌⊎◌, if◌then◌else◌,
}
use core_status.Data.Errors.{
  Error, Result, ok, err, http, not_found, internal_server_error, error_code, Result-cases,
}
use core_status.Data.Json.{Json}
use core_status.Data.Messages.{http_call}
use core_status.Data.Entities.{Stream, StreamType}
use core_status.Data.Requests.{StreamDto, StreamTypeDto, CreateStreamRequestBody}
use core_status.Effects.{World, Env, handle, throw, query, next-eq-ok}
use core_status.Effects.Laws.{IsTable}
use core_status.Clients.{exchange}
use core_status.Clients.Keystore.{create_keystore_key_by_me, key_body, post, fetch}
use core_status.Clients.Tokens.{authorized, exchange_sends, exchange_answers}
use core_status.Streams.{
  pg_unique_constraint_violation, get_type, validate, save_stream_type, type_conflict, save_type,
  save_stream, stream_keys, create,
}

-- There is a stream type of this name.
abbrev pub HasType : String → World → Type 0
HasType type w = (t : StreamType) × In t w.stream_types × (t.type ≡ type)

has_found :
    (env : Env) (laws : IsTable env.stream_type_table) (type : String) (w : World) (t : StreamType)
    → env.stream_type_table.find_one (λ x. x.type === type) w.stream_types ≡ ok (some t)
    → HasType type w
has_found env laws type w t h =
    let (i, e) = laws.find_one_some (λ x. x.type === type) w.stream_types t h in
    (t, i, (===_iff t.type type).0 e)

has_not_found :
    (env : Env) (laws : IsTable env.stream_type_table) (type : String) (w : World)
    → env.stream_type_table.find_one (λ x. x.type === type) w.stream_types ≡ ok none
    → HasType type w
    → ⊥
has_not_found env laws type w h (t, i, e) =
    let missed = laws.find_one_none (λ x. x.type === type) w.stream_types h t i in
    ground (arith, ===_iff t.type type)

-- The validator passes, with the database's answer, exactly the names that are there where one is demanded, and exactly
-- the names that are not where none may be; it refuses the others with 404 and 409, and a failing database with 500.
pub validate_decides :
    (env : Env) (laws : IsTable env.stream_type_table) (type : String) (w : World)
    → (((validate env true type w ≡ (ok true, w))
          × (validate env false type w ≡ (err (http 409 "stream already exists"), w))
          × HasType type w)
        ⊎ ((validate env true type w ≡ (err (not_found "stream type not found"), w))
            × (validate env false type w ≡ (ok true, w))
            × (HasType type w → ⊥)))
      ⊎ ((e : Error) × (env.stream_type_table.find_one (λ t. t.type === type) w.stream_types
            ≡ err e)
          × ((b : Bool) → validate env b type w ≡ (err internal_server_error, w)))
unfolding validate get_type
validate_decides env laws type w =
    elim (Result-cases (env.stream_type_table.find_one (λ x. x.type === type) w.stream_types)) [
      | inr (e, failed) ↦ inr (e, failed, λ b. rw failed refl)
      | inl (none, found) ↦
          inl (inr (rw found refl, rw found refl, has_not_found env laws type w found))
      | inl (some t, found) ↦
          inl (inl (rw found refl, rw found refl, has_found env laws type w t found))
    ]

-- A stream type that the database takes is stored at the end of the table and returned; a name that is taken is answered
-- with 409; and every other failure is dropped: nothing is stored, and the call returns as if it had succeeded.
pub save_type_outcomes :
    (env : Env) (laws : IsTable env.stream_type_table) (dto : StreamTypeDto) (w : World)
    → ((t : StreamType) × (save_type env dto w
          ≡ (ok (some t), record w { stream_types = w.stream_types ++ t ∷ [] })))
      ⊎ ((e : Error) × (env.stream_type_table.insert dto w.stream_types ≡ err e)
          × (save_type env dto w ≡ (
              if error_code e === pg_unique_constraint_violation
              then (err (http 409 "type exists"), w)
              else (ok none, w))))
unfolding save_type save_stream_type type_conflict
save_type_outcomes env laws dto w =
    elim (Result-cases (env.stream_type_table.insert dto w.stream_types)) [
      | inl ((t, rows), stored) ↦
          inl (t, ground (arith, laws.insert_adds dto w.stream_types rows t stored))
      | inr (e, failed) ↦ inr (e, failed, ground arith)
    ]

handle_inv :
    {A : Type 0} (r : Result A × World) (e : Error) (a : A) (w : World)
    → handle r (λ x. throw e) ≡ (ok a, w)
    → r ≡ (ok a, w)
handle_inv (ok b, v) e a w h = h
handle_inv (err x, v) e a w h = ground arith

save_stream_inv :
    (env : Env) (laws : IsTable env.stream_table) (dto : StreamDto) (w w' : World) (s : Stream)
    → save_stream env dto w ≡ (ok s, w')
    → (rows : List Stream) × (env.stream_table.insert dto w.streams ≡ ok (s, rows))
      × (w'.streams ≡ w.streams ++ s ∷ [])
      × (w'.history ≡ w.history)
unfolding save_stream
save_stream_inv env laws dto w w' s h =
    elim (Result-cases (env.stream_table.insert dto w.streams)) [
      | inr (e, failed) ↦ absurd (ground arith)
      | inl ((t, rows), stored) ↦
          (let adds = laws.insert_adds dto w.streams rows t stored in
            (rows, ground arith, ground arith, ground arith))
    ]

-- A stream that is created is the caller's row at the end of the table, with the key pair that the keystore issued for
-- one request under the caller's token.
pub create_stores :
    (env : Env) (laws : IsTable env.stream_table) (owner_id token : String)
    (body : CreateStreamRequestBody) (w w' : World) (s : Stream)
    → env.is_debug ≡ false
    → create env owner_id token body w ≡ (ok s, w')
    → (answer : Json) × (keypair_id : String) × (device_id : String) × (rows : List Stream)
      × (env.http_answer
            (authorized token (post env "/v1/identity/me/keys" (key_body (stream_keys body))))
            (w.history
              ++ http_call
                  (authorized token (post env "/v1/identity/me/keys" (key_body (stream_keys body))))
                ∷ [])
          ≡ ok answer)
      × (env.read_key_pair answer ≡ ok (keypair_id, device_id))
      × (env.stream_table.insert
            (record {
              type = body.stream_type;
              owner_id = owner_id;
              keypair_id = keypair_id;
              device_id = device_id;
            })
            w.streams
          ≡ ok (s, rows))
      × (w'.streams ≡ w.streams ++ s ∷ [])
      × (w'.history
          ≡ w.history
            ++ http_call
                (authorized token (post env "/v1/identity/me/keys" (key_body (stream_keys body))))
              ∷ [])
unfolding create create_keystore_key_by_me fetch
create_stores env laws owner_id token body w w' s live h =
    let asked = create_keystore_key_by_me env token (stream_keys body) w in
    let held : World = record w { keystore_token = some token } in
    let request = post env "/v1/identity/me/keys" (key_body (stream_keys body)) in
    let (answer, w₁, got, h₁) = next-eq-ok (handle asked (λ e. throw internal_server_error)) _ h in
    let sent =
      exchange_sends env (λ v. v.keystore_token) token request held w₁ answer live refl
        (handle_inv asked internal_server_error answer w₁ got) in
    let (pair, w₂, read, h₂) = next-eq-ok (query (λ v. env.read_key_pair answer) w₁) _ h₁ in
    let (rows, stored, grown, quiet) = save_stream_inv env laws _ w₂ w' s h₂ in
    let back : w₂ ≡ w₁ = ground arith in
    let streams : w₂.streams ≡ w.streams =
      ap (λ (v : World). v.streams) back ∙ ap (λ (v : World). v.streams) sent in
    let history = ap (λ (v : World). v.history) back ∙ ap (λ (v : World). v.history) sent in
    (
      answer,
      pair.0,
      pair.1,
      rows,
      exchange_answers env (λ v. v.keystore_token) token request held w₁ answer live refl
          (handle_inv asked internal_server_error answer w₁ got),
      ground arith,
      ap
            (λ rs.
              env.stream_table.insert
                (record {
                  type = body.stream_type;
                  owner_id = owner_id;
                  keypair_id = pair.0;
                  device_id = pair.1;
                })
                rs)
            (sym streams)
          ∙ stored,
      grown ∙ ap (λ rs. rs ++ s ∷ []) streams,
      quiet ∙ history,
    )

-- Where the keystore does not answer, the request fails with 500 and no stream is stored.
pub create_without_keys :
    (env : Env) (owner_id token : String) (body : CreateStreamRequestBody) (w : World) (e : Error)
    → (create_keystore_key_by_me env token (stream_keys body) w).0 ≡ err e
    → ((create env owner_id token body w).0 ≡ err internal_server_error)
      × ((create env owner_id token body w).1.streams ≡ w.streams)
unfolding create create_keystore_key_by_me fetch exchange
create_without_keys env owner_id token body w e h = ground arith
