-- ===== src/Data/Entities.antt =====
-- The database rows (src/products/entity/*.ts). An instant is its number of milliseconds since 1970, an id is
-- its text; a nullable column is an `Option`. Left out are the columns `created_at` and `updated_at` that the
-- database maintains and no code reads.
use core_status.Data.Json.{Json}
use core_status.Base.{ℕ, String, Bool, true, false, Option, List, [], ◌∷◌, if◌then◌else◌}

-- `GrantType` of dto/grant.model.ts
pub data GrantType : Type 0 where
  range all latest : GrantType

pub record GrantProperties : Type 0 where
  pub re_encryption_key : String
  pub e2e_key : String

-- `properties` is `none` once `getMy` has deleted the property.
pub record Grant : Type 0 where
  pub id : String
  pub type : GrantType
  pub properties : Option GrantProperties
  pub recipient_id : String
  pub owner_id : String
  pub from_date : ℕ
  pub to_date : ℕ
  pub stream_id : String

pub record StreamType : Type 0 where
  pub id : String
  pub granularity : String
  pub stream_handling : String
  pub approximated : Bool
  pub supported_grants : List GrantType
  pub type : String

pub record Stream : Type 0 where
  pub id : String
  pub owner_id : String
  pub keypair_id : String
  pub device_id : String
  pub type : String

pub record UpdateMarker : Type 0 where
  pub started : Option Bool
  pub stopped : Option Bool
  pub frequency : Option String
  pub deleted : Option Bool

-- `UpdateEntity`, a status update
pub record Update : Type 0 where
  pub id : String
  pub user_id : String
  pub stream_id : String
  pub payload : Option String
  pub recorded_at : ℕ
  pub uploaded_at : ℕ
  pub marker : UpdateMarker

pub data PayloadType : Type 0 where
  lockbox content : PayloadType

-- `UploadEntity`; its column `data` is `bytes`
pub record UploadEntity : Type 0 where
  pub id : String
  pub key : String
  pub location : Option String
  pub bucket : Option String
  pub etag : Option String
  pub type : PayloadType
  pub bytes : Option (List ℕ)
  pub created_at : ℕ
  pub updated_at : ℕ
  pub user_id : String

abbrev pub is_grant_type : GrantType → GrantType → Bool
is_grant_type range range = true
is_grant_type all all = true
is_grant_type latest latest = true
is_grant_type _ _ = false

abbrev pub includes_type : List GrantType → GrantType → Bool
includes_type [] t = false
includes_type (x ∷ xs) t = if is_grant_type x t then true else includes_type xs t

-- `ProductDto`, which is saved as a `ProductEntity`; its price is a number of JSON.
pub record Product : Type 0 where
  pub id : String
  pub title : String
  pub description : String
  pub price : Json
  pub unit : String
