-- ===== src/Startup/Configured.antt =====
-- A service that listens is configured.
use Prim.Native.String.{◌++◌}
use core_status.Base.{
  String, Bool, Bool-cases, true, false, Option, none, some, List, [], ◌∷◌, ◌≡◌, refl, arith, inl,
  inr, if◌then◌else◌, ◌===◌, ===_iff, ◌∙◌,
}
use core_status.Data.Errors.{ok}
use core_status.Startup.{
  Vars, Kind, string, number, Joi, config_validation_schema, is_taken, validate, either, is_compat,
  orm_options, rabbit_connection_url, transport_config, Service, bootstrap,
}

-- the kind that a schema demands of a variable
abbrev demanded : String → List (String × Kind) → Option Kind
demanded name [] = none
demanded name ((n, kind) ∷ rest) = if n === name then some kind else demanded name rest

-- The variable has a value, and Joi takes it.
abbrev pub IsGiven : Joi → Kind → Option String → Type 0
IsGiven joi kind value = (text : String) × (value ≡ some text) × (joi.takes kind text ≡ true)

taken_inv :
    (joi : Joi) (kind : Kind) (value : Option String)
    → is_taken joi kind value ≡ true
    → IsGiven joi kind value
taken_inv joi kind none h = cc
taken_inv joi kind (some text) h = (text, refl, h)

validate_inv :
    (joi : Joi) (vars : Vars) (schema : List (String × Kind)) (name : String) (kind : Kind)
    → validate joi vars schema ≡ true
    → demanded name schema ≡ some kind
    → IsGiven joi kind (vars name)
unfolding validate
validate_inv joi vars [] name kind h d = cc
validate_inv joi vars ((n, k) ∷ rest) name kind h d = elim (Bool-cases (n === name)) [
  | inl same ↦
      (let is_name : n ≡ name = (===_iff n name).0 same in
        let is_kind : k ≡ kind = ground arith in
        rw (← is_name, ← is_kind) (taken_inv joi k (vars n) (ground arith)))
  | inr other ↦ validate_inv joi vars rest name kind (ground arith) (ground arith)
]

-- The value that a choice of two variables gives is given if both are.
either-IsGiven :
    (joi : Joi) (kind : Kind) (b : Bool) (x y : Option String)
    → IsGiven joi kind x
    → IsGiven joi kind y
    → IsGiven joi kind (either b x y)
either-IsGiven joi kind true x y g h = g
either-IsGiven joi kind false x y g h = h

required :
    (joi : Joi) (vars : Vars)
    → validate joi vars config_validation_schema ≡ true
    → (name : String) (kind : Kind) → demanded name config_validation_schema ≡ some kind
    → IsGiven joi kind (vars name)
required joi vars passed name kind d =
    validate_inv joi vars config_validation_schema name kind passed d

validated :
    (joi : Joi) (vars : Vars) (s : Service)
    → bootstrap joi vars ≡ ok s
    → (validate joi vars config_validation_schema ≡ true)
      × (s.database ≡ orm_options joi vars)
      × (s.transport ≡ transport_config vars)
      × (s.broker ≡ rabbit_connection_url vars)
      × (s.listens_at ≡ vars "CORE_STATUS_PORT")
unfolding bootstrap
validated joi vars s h = elim (Bool-cases (validate joi vars config_validation_schema)) [
  | inl passed ↦ (passed, ground arith, ground arith, ground arith, ground arith)
  | inr failed ↦ absurd (ground arith)
]

-- the address of the broker by its parts
abbrev pub broker_at : String → String → String → String → String
broker_at user password host port =
    "amqp://" ++ user ++ ":" ++ password ++ "@" ++ host ++ ":" ++ port

-- Where start-up succeeds, the service listens at a given port, and what it connects with is given: the address and the
-- account of the database that it uses, whichever of the two that is, the keys of PubNub, and each part of the
-- broker's address; and Joi takes each of these, as a number where the port to listen at is.
pub listening_configured :
    (joi : Joi) (vars : Vars) (s : Service)
    → bootstrap joi vars ≡ ok s
    → IsGiven joi number s.listens_at
      × IsGiven joi string s.database.host
      × IsGiven joi string s.database.port
      × IsGiven joi string s.database.username
      × IsGiven joi string s.database.password
      × IsGiven joi string s.database.database
      × IsGiven joi string s.transport.subscribe_key
      × IsGiven joi string s.transport.publish_key
      × IsGiven joi string s.transport.uuid
      × ((user password host port : String) × (s.broker ≡ broker_at user password host port)
          × (joi.takes string user ≡ true)
          × (joi.takes string password ≡ true)
          × (joi.takes string host ≡ true)
          × (joi.takes number port ≡ true))
listening_configured joi vars s h =
    let (passed, database, transport, broker, at) = validated joi vars s h in
    let compat = is_compat joi (vars "POSTGRESQL_COMPAT") in
    let (user, is_user, user_taken) = (required joi vars passed "RABBITMQ_USER" string refl) in
    let (password, is_password, password_taken) =
      (required joi vars passed "RABBITMQ_PASSWORD" string refl) in
    let (host, is_host, host_taken) = (required joi vars passed "RABBITMQ_HOST" string refl) in
    let (port, is_port, port_taken) = (required joi vars passed "RABBITMQ_PORT" number refl) in
    (
      rw at (required joi vars passed "CORE_STATUS_PORT" number refl),
      rw database (
          either-IsGiven joi string compat _ _
            (required joi vars passed "POSTGRES_DB_HOST" string refl)
            (required joi vars passed "CRDB_DB_HOST" string refl)),
      rw database (
          either-IsGiven joi string compat _ _
            (required joi vars passed "POSTGRES_DB_PORT" string refl)
            (required joi vars passed "CRDB_DB_PORT" string refl)),
      rw database (
          either-IsGiven joi string compat _ _
            (required joi vars passed "POSTGRES_DB_USERNAME" string refl)
            (required joi vars passed "CRDB_DB_USERNAME" string refl)),
      rw database (
          either-IsGiven joi string compat _ _
            (required joi vars passed "POSTGRES_DB_PASSWORD" string refl)
            (required joi vars passed "CRDB_DB_PASSWORD" string refl)),
      rw database (
          either-IsGiven joi string compat _ _
            (required joi vars passed "POSTGRES_DB_DATABASE" string refl)
            (required joi vars passed "CRDB_DB_DATABASE" string refl)),
      rw transport (required joi vars passed "WORKER_SUBSCRIBE_KEY" string refl),
      rw transport (required joi vars passed "WORKER_PUBLISH_KEY" string refl),
      rw transport (required joi vars passed "WORKER_UUID" string refl),
      (
        user,
        password,
        host,
        port,
        broker ∙ rw (is_user, is_password, is_host, is_port) refl,
        user_taken,
        password_taken,
        host_taken,
        port_taken,
      ),
    )
