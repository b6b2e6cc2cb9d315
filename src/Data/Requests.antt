-- ===== src/Data/Requests.antt =====
-- The bodies and options of requests (src/products/dto/*.ts), and the caller's token.
use core_status.Base.{ℕ, String, Bool, Option, List}
use core_status.Data.Entities.{GrantType, GrantProperties, UpdateMarker}

-- `TokenData` of @globalid/nest-auth, as far as the source reads it
pub record TokenData : Type 0 where
  pub uuid : String
  pub sub : String
  pub scopes : List String

pub record TimeRangeDto : Type 0 where
  pub from_date : String
  pub to_date : String

pub record GrantDto : Type 0 where
  pub from_date : String
  pub to_date : String
  pub type : GrantType
  pub properties : GrantProperties
  pub recipient_id : String
  pub owner_id : String
  pub stream_id : String

pub record StreamDto : Type 0 where
  pub type : String
  pub owner_id : String
  pub keypair_id : String
  pub device_id : String

pub record StreamTypeDto : Type 0 where
  pub granularity : String
  pub stream_handling : String
  pub approximated : Bool
  pub supported_grants : List GrantType
  pub type : String

pub record CreateStreamRequestBody : Type 0 where
  pub stream_type : String
  pub encrypted_private_key : String
  pub public_key : String

-- The marker of a new status: each part may be missing.
pub record UpdateMarkerCreateDto : Type 0 where
  pub started : Option Bool
  pub stopped : Option Bool
  pub frequency : Option String

pub record StatusDto : Type 0 where
  pub id : String
  pub stream_id : String
  pub payload : String
  pub recorded_at : String
  pub marker : UpdateMarkerCreateDto

-- A `StatusDto` as `save` hands it to the database, with its owner and full marker.
pub record StatusRow : Type 0 where
  pub status : StatusDto
  pub user_id : String
  pub marker : UpdateMarker

-- One entry of the answer to `save`.
pub data StatusResult : Type 0 where
  stored : StatusRow → ℕ → StatusResult
  already_exists : StatusResult

pub record GetUserStatusesParams : Type 0 where
  pub from : Option ℕ
  pub to : Option ℕ

pub record DeletedUpdate : Type 0 where
  pub id : String
  pub comment : String

pub record SingleUpdateDeleteOptions : Type 0 where
  pub id : String
  pub stream_id : String

pub record MassUpdateDeleteOptions : Type 0 where
  pub ids : List String
  pub stream_id : String

pub record DeleteStatusDateRangeOptions : Type 0 where
  pub stream_id : String
  pub from : String
  pub to : String

-- `ImageResponseDTO`, as far as the upload service reads it
pub record ImageResponseDto : Type 0 where
  pub bucket : String
  pub etag : String
  pub location : String
