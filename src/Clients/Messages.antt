-- ===== src/Clients/Messages.antt =====
-- The messages that are posted to the channel API, and their JSON (src/products/dto/channel.model.ts).
use core_status.Base.{String, Bool, Option, List}
use core_status.Data.Json.{Json, bool, str, arr, obj, end, field}
use core_status.Clients.Bodies.{Text, text_field, option_field, item_list}

pub data MessageType : Type 0 where
  text_message encrypted_text card_view encrypted_card_view : MessageType
  card_dual_view encrypted_card_dual_view media encrypted_media : MessageType
  media_with_text media_with_encrypted_text : MessageType
  files_with_text files_with_encrypted_text system deleted : MessageType

abbrev pub message_type_text : MessageType → String
message_type_text text_message = "TEXT"
message_type_text encrypted_text = "ENCRYPTED_TEXT"
message_type_text card_view = "CARD_VIEW"
message_type_text encrypted_card_view = "ENCRYPTED_CARD_VIEW"
message_type_text card_dual_view = "CARD_DUAL_VIEW"
message_type_text encrypted_card_dual_view = "ENCRYPTED_CARD_DUAL_VIEW"
message_type_text media = "MEDIA"
message_type_text encrypted_media = "ENCRYPTED_MEDIA"
message_type_text media_with_text = "MEDIA_WITH_TEXT"
message_type_text media_with_encrypted_text = "MEDIA_WITH_ENCRYPTED_TEXT"
message_type_text files_with_text = "FILES_WITH_TEXT"
message_type_text files_with_encrypted_text = "FILES_WITH_ENCRYPTED_TEXT"
message_type_text system = "SYSTEM"
message_type_text deleted = "DELETED"

-- `MentionType`
pub data MentionType : Type 0 where
  user_mention channel_mention : MentionType

abbrev pub mention_type_text : MentionType → String
mention_type_text user_mention = "user"
mention_type_text channel_mention = "channel"

pub record Mention : Type 0 where
  pub type : MentionType
  pub gid_uuid : Option String
  pub gid_name : Option String

-- `MessagePayload` with `MessageContent`; a meta without mentions has none.
pub record MessagePayload : Type 0 where
  pub type : MessageType
  pub content : String
  pub silent : Option Bool
  pub uuid : String
  pub reference_message_id : Text
  pub mentions : Option (List Mention)

abbrev pub mention_json : Mention → Json
mention_json m = obj (
    field "type" (str (mention_type_text m.type))
      (option_field "gid_uuid" str m.gid_uuid (option_field "gid_name" str m.gid_name end)))

abbrev pub meta_json : List Mention → Json
meta_json mentions = obj (field "mentions" (arr (item_list mention_json mentions)) end)

unfoldable pub message_json : MessagePayload → Json
message_json m = obj (
    field "type" (str (message_type_text m.type)) (
      field "content" (str m.content) (
        option_field "silent" bool m.silent (
          field "uuid" (str m.uuid) (
            text_field "reference_message_id" m.reference_message_id
              (option_field "meta" meta_json m.mentions end))))))
