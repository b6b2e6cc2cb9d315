-- ===== src/Data/Messages.antt =====
-- Messages to RabbitMQ and PubNub, and the calls of outside services that leave a trace.
use core_status.Base.{ℕ, String, Option, List}
use core_status.Data.Json.{Json}
use core_status.Data.Entities.{Grant, UploadEntity, Product}

-- `StatusUpdateDto` of the worker
pub record StatusUpdateDto : Type 0 where
  pub id : String
  pub stream_id : String
  pub user_id : String
  pub recorded_at : String
  pub payload : String

-- `PreStatusUpdateDto` of the worker
pub record PreStatusUpdateDto : Type 0 where
  pub update : StatusUpdateDto
  pub recipient_id : String
  pub grant_id : String
  pub re_encryption_key : String

-- `PREMessage` of the worker
pub record PreMessage : Type 0 where
  pub id : String
  pub stream_id : String
  pub recorded_at : String
  pub recipient_id : String
  pub reencrypted_payload : String

pub record PubnubNotification : Type 0 where
  pub title : String
  pub message : String
  pub domain : String
  pub type : String
  pub from : String
  pub targets : List String
  pub payload : Grant
  pub stream_id : String

-- A request of axios: its method and address, the parameters of its query, its body and its headers
pub record HttpRequest : Type 0 where
  pub verb : String
  pub url : String
  pub params : List (String × ℕ)
  pub body : Option Json
  pub headers : List (String × String)

-- A call of an outside service, in the order of the calls.
pub data Effect : Type 0 where
  subscribe unsubscribe : List String → Effect
  add_channels remove_channels : List String → String → Effect
  publish_notification : String → PubnubNotification → Effect
  publish_message : String → PreMessage → Effect
  send_status : String → StatusUpdateDto → Effect
  send_pre : String → PreStatusUpdateDto → Effect
  send_upload : UploadEntity → Effect
  s3_upload s3_delete : String → String → Effect
  send_product : Product → Effect
  http_call : HttpRequest → Effect
  publish_channel publish_keystore : Json → Effect
