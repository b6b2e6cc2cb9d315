-- ===== src/Startup/Bucket.antt =====
-- The bucket that is created at start-up and the bucket that files are uploaded to.
use core_status.Base.{String, Bool-cases, ◌≡◌, ◌↔◌, ◌⊎◌, inl, inr, Option, none, some, arith, refl}
use core_status.Data.Errors.{ok}
use core_status.Startup.{
  Joi, Vars, Service, validate, config_validation_schema, bootstrap, s3_config_provider,
  get_bucket_name, or_default,
}

created :
    (joi : Joi) (vars : Vars) (s : Service)
    → bootstrap joi vars ≡ ok s
    → s.created_bucket ≡ "testbucket"
unfolding bootstrap
created joi vars s h = elim (Bool-cases (validate joi vars config_validation_schema)) [
  | inl passed ↦ ground arith
  | inr failed ↦ absurd (ground arith)
]

default_iff :
    (value : Option String)
    → (or_default value "testbucket" ≡ "testbucket")
      ↔ ((value ≡ none) ⊎ (value ≡ some "testbucket"))
default_iff none = (λ e. inl refl, λ e. refl)
default_iff (some name) = (λ e. inr (ground arith), λ e. ground arith)

-- The bucket that files are uploaded to is the one that start-up creates exactly if the variable that names it is not
-- set, or names the default.
created_bucket_iff :
    (joi : Joi) (vars : Vars) (s : Service)
    → bootstrap joi vars ≡ ok s
    → (get_bucket_name (s3_config_provider vars) ≡ s.created_bucket)
      ↔ ((vars "AWS_BUCKET_NAME" ≡ none) ⊎ (vars "AWS_BUCKET_NAME" ≡ some "testbucket"))
created_bucket_iff joi vars s h = rw (created joi vars s h) (default_iff (vars "AWS_BUCKET_NAME"))
