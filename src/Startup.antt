-- ===== src/Startup.antt =====
-- Start-up of the service (src/main.ts) and what it is configured with (src/products/config, src/products/model/config.ts),
-- by the variables of the process. Nest, Joi, S3 and PubNub are not part of the repository: Joi's reading of one
-- variable is a parameter.
pub mod Configured
pub mod Bucket
use Prim.Native.String.{◌++◌}
use core_status.Base.{
  String, Bool, true, false, not, ◌&&◌, ◌||◌, Option, none, some, List, [], ◌∷◌, ◌===◌,
  if◌then◌else◌,
}
use core_status.Data.Errors.{Result, ok, err, failure, Error}

-- `process.env`
abbrev pub Vars : Type 0
Vars = String → Option String

pub data Kind : Type 0 where
  string : Kind
  number : Kind
  bool : Kind

pub record Joi : Type 0 where
  -- whether `Joi.string()`, `Joi.number()` or `Joi.bool()` takes a text
  pub takes : Kind → String → Bool
  -- the Boolean that `Joi.bool()` makes of it
  pub to_bool : String → Bool

-- `CONFIG_VALIDATION_SCHEMA`: the variables that are required
abbrev pub config_validation_schema : List (String × Kind)
config_validation_schema =
    ("RABBITMQ_USER", string)
    ∷ ("RABBITMQ_PASSWORD", string)
    ∷ ("RABBITMQ_HOST", string)
    ∷ ("RABBITMQ_PORT", number)
    ∷ ("JWT_PUBLIC_KEY", string)
    ∷ ("CRDB_DB_HOST", string)
    ∷ ("CRDB_DB_PORT", string)
    ∷ ("CRDB_DB_USERNAME", string)
    ∷ ("CRDB_DB_PASSWORD", string)
    ∷ ("CRDB_DB_DATABASE", string)
    ∷ ("POSTGRESQL_COMPAT", bool)
    ∷ ("POSTGRES_DB_HOST", string)
    ∷ ("POSTGRES_DB_PORT", string)
    ∷ ("POSTGRES_DB_USERNAME", string)
    ∷ ("POSTGRES_DB_PASSWORD", string)
    ∷ ("POSTGRES_DB_DATABASE", string)
    ∷ ("CORE_STATUS_PORT", number)
    ∷ ("WORKER_SUBSCRIBE_KEY", string)
    ∷ ("WORKER_PUBLISH_KEY", string)
    ∷ ("WORKER_PUBNUB_LOGGING", bool)
    ∷ ("WORKER_UUID", string)
    ∷ []

abbrev pub is_taken : Joi → Kind → Option String → Bool
is_taken joi kind none = false
is_taken joi kind (some text) = joi.takes kind text

-- the validation of the variables by the configuration module
unfoldable pub validate : Joi → Vars → List (String × Kind) → Bool
validate joi vars [] = true
validate joi vars ((name, kind) ∷ rest) = is_taken joi kind (vars name) && validate joi vars rest

-- `??`
abbrev pub or_default : Option String → String → String
or_default none text = text
or_default (some value) text = value

-- a variable in a template text
abbrev pub in_template : Option String → String
in_template value = or_default value "undefined"

-- `RABBIT_CONNECTION_URL`
abbrev pub rabbit_connection_url : Vars → String
rabbit_connection_url vars =
    "amqp://"
    ++ in_template (vars "RABBITMQ_USER")
    ++ ":"
    ++ in_template (vars "RABBITMQ_PASSWORD")
    ++ "@"
    ++ in_template (vars "RABBITMQ_HOST")
    ++ ":"
    ++ in_template (vars "RABBITMQ_PORT")

pub record TransportConfig : Type 0 where
  pub subscribe_key : Option String
  pub publish_key : Option String
  pub log_verbosity : Bool
  pub uuid : Option String

abbrev pub is_text : String → Option String → Bool
is_text text none = false
is_text text (some value) = value === text

-- `TRANSPORT_CONFIG`
abbrev pub transport_config : Vars → TransportConfig
transport_config vars = record {
  subscribe_key = vars "WORKER_SUBSCRIBE_KEY";
  publish_key = vars "WORKER_PUBLISH_KEY";
  log_verbosity = is_text "true" (vars "WORKER_PUBNUB_LOGGING");
  uuid = vars "WORKER_UUID";
}

pub record DatabaseOptions : Type 0 where
  pub host : Option String
  pub port : Option String
  pub username : Option String
  pub password : Option String
  pub database : Option String
  pub synchronize : Bool

abbrev pub is_compat : Joi → Option String → Bool
is_compat joi none = false
is_compat joi (some text) = joi.to_bool text

abbrev pub either : Bool → Option String → Option String → Option String
either true a b = a
either false a b = b

-- `ormOptions`
abbrev pub orm_options : Joi → Vars → DatabaseOptions
orm_options joi vars =
    let compat = is_compat joi (vars "POSTGRESQL_COMPAT") in
    record {
      host = either compat (vars "POSTGRES_DB_HOST") (vars "CRDB_DB_HOST");
      port = either compat (vars "POSTGRES_DB_PORT") (vars "CRDB_DB_PORT");
      username = either compat (vars "POSTGRES_DB_USERNAME") (vars "CRDB_DB_USERNAME");
      password = either compat (vars "POSTGRES_DB_PASSWORD") (vars "CRDB_DB_PASSWORD");
      database = either compat (vars "POSTGRES_DB_DATABASE") (vars "CRDB_DB_DATABASE");
      synchronize = compat;
    }

-- `S3ConfigProvider`
pub record S3ConfigProvider : Type 0 where
  pub bucket_name : String
  pub access_key_id : String
  pub secret_access_key : String
  pub endpoint : String
  pub region : String

abbrev pub s3_config_provider : Vars → S3ConfigProvider
s3_config_provider vars = record {
  bucket_name = or_default (vars "AWS_BUCKET_NAME") "testbucket";
  access_key_id = or_default (vars "AWS_ACCESS_KEY_ID") "testaccesskey";
  secret_access_key = or_default (vars "AWS_SECRET_ACCESS_KEY") "testsecretkey";
  endpoint = or_default (vars "DYNAMO_DB_END_POINT") "http://localhost:4566";
  region = or_default (vars "AWS_REGION") "ap-southeast-1";
}

abbrev pub get_bucket_name : S3ConfigProvider → String
get_bucket_name provider = provider.bucket_name

-- the bucket that `createBucket` asks S3 for
abbrev pub create_bucket : S3ConfigProvider → String
create_bucket provider = "testbucket"

-- What the service is connected with when it listens.
pub record Service : Type 0 where
  pub database : DatabaseOptions
  pub broker : String
  pub created_bucket : String
  pub transport : TransportConfig
  pub listens_at : Option String

-- `bootstrap`; the configuration module throws where a variable is missing or not taken.
unfoldable pub bootstrap : Joi → Vars → Result Service
unfolding validate
bootstrap joi vars =
    if not (validate joi vars config_validation_schema)
    then err (failure "" "Config validation error")
    else ok (record {
      database = orm_options joi vars;
      broker = rabbit_connection_url vars;
      created_bucket = create_bucket (s3_config_provider vars);
      transport = transport_config vars;
      listens_at = vars "CORE_STATUS_PORT";
    })

-- `IS_DEBUG`, `IS_DEBUG_KEYSTORE`, `IS_DEVELOPMENT` and `IS_STAGING`
abbrev pub is_debug : Vars → Bool
is_debug vars = is_text "debug" (vars "NODE_ENV")

abbrev pub is_debug_keystore : Vars → Bool
is_debug_keystore vars =
    is_text "debugkeystore" (vars "NODE_ENV") || is_text "test" (vars "NODE_ENV")

abbrev pub is_development : Vars → Bool
is_development vars = is_text "development" (vars "NODE_ENV")

abbrev pub is_staging : Vars → Bool
is_staging vars = is_text "staging" (vars "NODE_ENV")

abbrev pub production_api_url : String
production_api_url = "https://api.global.id/v1"

abbrev pub staging_api_url : String
staging_api_url = "https://staging-api.gidstaging.net/v1"

abbrev pub dev_api_url : String
dev_api_url = "https://dev-api.gidstaging.net/v1"

abbrev pub debug_api_url : Vars → String
debug_api_url vars = or_default (vars "SDK_CUSTOM_API_URL") "http://localhost:9836/v2"

abbrev pub debug_keystore_api_url : Vars → String
debug_keystore_api_url vars = or_default (vars "SDK_CUSTOM_API_URL") "http://localhost:9123/v1"

-- `API_URL`
unfoldable pub api_url : Vars → String
api_url vars =
    if is_debug vars
    then debug_api_url vars
    else if is_debug_keystore vars
    then debug_keystore_api_url vars
    else if is_development vars
    then dev_api_url
    else if is_staging vars
    then staging_api_url
    else production_api_url
