-- ===== src/Examples/Boot.antt =====
-- The service started as the compose file has it, and the keys of two files.
use Prim.Native.String.{◌++◌}
use core_status.Base.{String, ◌≡◌, refl, true, none, some, ◌===◌, if◌then◌else◌}
use core_status.Data.Errors.{ok}
use core_status.Startup.{
  Joi, Vars, string, number, Service, bootstrap, transport_config, orm_options,
  rabbit_connection_url,
}
use core_status.Startup.Configured.{IsGiven, broker_at, listening_configured}
use core_status.Uploads.Keys.{Date}
use core_status.Uploads.Keys.Distinct.{upload_key_injective}

abbrev joi : Joi
joi = record { takes = λ kind text. true; to_bool = λ text. text === "true" }

abbrev vars : Vars
vars name =
    if name === "AWS_BUCKET_NAME"
    then some "dev-bucket"
    else if name === "NODE_ENV"
    then none
    else if name === "CORE_STATUS_PORT"
    then some "3030"
    else some "given"

abbrev service : Service
service = record {
  database = orm_options joi vars;
  broker = rabbit_connection_url vars;
  created_bucket = "testbucket";
  transport = transport_config vars;
  listens_at = some "3030";
}

boots : bootstrap joi vars ≡ ok service
unfolding bootstrap
boots = refl

listening_configured_example :
    IsGiven joi number (some "3030")
    × IsGiven joi string service.database.host
    × IsGiven joi string service.database.port
    × IsGiven joi string service.database.username
    × IsGiven joi string service.database.password
    × IsGiven joi string service.database.database
    × IsGiven joi string service.transport.subscribe_key
    × IsGiven joi string service.transport.publish_key
    × IsGiven joi string service.transport.uuid
    × ((user password host port : String) × (service.broker ≡ broker_at user password host port)
        × (joi.takes string user ≡ true)
        × (joi.takes string password ≡ true)
        × (joi.takes string host ≡ true)
        × (joi.takes number port ≡ true))
listening_configured_example = listening_configured joi vars service boots

abbrev new_year : Date
new_year = record { full_year = 2021; month = 0; date = 1 }

upload_key_injective_example :
    (new_year.full_year ≡ 2021) × (new_year.month ≡ 0) × (new_year.date ≡ 1) × ("a" ++ "b" ≡ "ab")
upload_key_injective_example = upload_key_injective new_year new_year ("a" ++ "b") "ab" refl
