-- ===== src/Clients/Bodies.antt =====
-- The bodies that are posted to the channel API, which of them are accepted, and their JSON
-- (src/products/dto/channel.model.ts, src/products/util/util.ts). The tests of class-validator are given: `Checks`.
pub mod Accepted
use core_status.Base.{
  ℕ, String, Bool, true, false, not, ◌&&◌, Option, none, some, List, [], ◌∷◌, length, includes, leb,
  ◌==◌, ◌===◌, ◌-◌, if◌then◌else◌, ltb,
}
use core_status.Data.Json.{Json, Items, Fields, nil, cons, null, bool, str, arr, obj, end, field}

-- `ChannelType` of util.ts
pub data ChannelType : Type 0 where
  service presence personal multi group group_custom : ChannelType

abbrev pub channel_type_text : ChannelType → String
channel_type_text service = "SERVICE"
channel_type_text presence = "PRESENCE"
channel_type_text personal = "PERSONAL"
channel_type_text multi = "MULTI"
channel_type_text group = "GROUP"
channel_type_text group_custom = "GROUP_CUSTOM"

abbrev pub personal_channel_participants : ℕ
personal_channel_participants = 1

abbrev pub multi_channel_min_participants : ℕ
multi_channel_min_participants = 3

abbrev pub multi_channel_max_participants : ℕ
multi_channel_max_participants = 37

-- `validate` of `ParticipantsLength`
unfoldable pub participants_length : ChannelType → List String → Bool
participants_length personal value = length value == personal_channel_participants
participants_length multi value =
    if ltb (length value) multi_channel_min_participants
    then false
    else if ltb multi_channel_max_participants (length value)
    then false
    else true
participants_length group value = true
participants_length service value = false
participants_length presence value = false
participants_length group_custom value = false

-- the two numbers in `defaultMessage` of `ParticipantsLength` for a channel of type multi
abbrev pub message_bounds : ℕ × ℕ
message_bounds = (multi_channel_min_participants - 1, multi_channel_max_participants - 1)

-- tests of class-validator, and `trim` of JavaScript
pub record Checks : Type 0 where
  pub is_uuid4 : String → Bool
  pub is_url : String → Bool
  pub trim : String → String
  pub text_length : String → ℕ

-- `validate` of `IsNotBlank`, of a text
abbrev pub is_not_blank : Checks → String → Bool
is_not_blank checks value = ltb 0 (checks.text_length (checks.trim value))

abbrev pub has_length : Checks → ℕ → ℕ → String → Bool
has_length checks low high value =
    leb low (checks.text_length value) && leb (checks.text_length value) high

pub record ChannelSecretHeader : Type 0 where
  pub alg : String
  pub kid : String

pub record ChannelSecret : Type 0 where
  pub encrypted_secret : String
  pub header : ChannelSecretHeader

pub record ParticipantChannelSecret : Type 0 where
  pub gid_uuid : String
  pub secret : ChannelSecret

-- a property that may be undefined, null or a text
pub data Text : Type 0 where
  undefined null_text : Text
  text : String → Text

-- `AddChannelBody`
pub record AddChannelBody : Type 0 where
  pub participants : List String
  pub uuid : String
  pub exposed : Bool
  pub type : ChannelType
  pub title : Text
  pub description : Text
  pub image_url : Option String
  pub secrets : Option (List ParticipantChannelSecret)
  pub group_uuid : Option String

abbrev pub all_of : {A : Type 0} → (A → Bool) → List A → Bool
all_of test [] = true
all_of test (x ∷ xs) = test x && all_of test xs

-- `ArrayUnique`
abbrev pub array_unique : List String → Bool
array_unique [] = true
array_unique (x ∷ xs) = not (includes xs x) && array_unique xs

-- `AllowedChanelType`
abbrev pub is_allowed_type : ChannelType → Bool
is_allowed_type personal = true
is_allowed_type multi = true
is_allowed_type _ = false

-- Under `@OrUndefined() @OrNull()` the other tests are made of a text alone.
abbrev pub optional_text : (String → Bool) → Text → Bool
optional_text test undefined = true
optional_text test null_text = true
optional_text test (text value) = test value

abbrev pub optional : {A : Type 0} → (A → Bool) → Option A → Bool
optional test none = true
optional test (some value) = test value

abbrev pub is_secret : Checks → ParticipantChannelSecret → Bool
is_secret checks s =
    checks.is_uuid4 s.gid_uuid
    && not (s.secret.encrypted_secret === "")
    && not (s.secret.header.alg === "")
    && not (s.secret.header.kid === "")

-- what the decorators of `AddChannelBody` let pass
unfoldable pub accepts_channel : Checks → AddChannelBody → Bool
unfolding participants_length
accepts_channel checks body =
    array_unique body.participants
    && not (length body.participants == 0)
    && all_of checks.is_uuid4 body.participants
    && participants_length body.type body.participants
    && checks.is_uuid4 body.uuid
    && is_allowed_type body.type
    && optional_text (λ t. is_not_blank checks t && has_length checks 1 255 t) body.title
    && optional_text (has_length checks 0 512) body.description
    && optional (λ u. checks.is_url u && has_length checks 0 255 u) body.image_url
    && optional (λ ss. leb 2 (length ss) && all_of (is_secret checks) ss) body.secrets
    && optional checks.is_uuid4 body.group_uuid

abbrev pub text_field : String → Text → Fields → Fields
text_field name undefined rest = rest
text_field name null_text rest = field name null rest
text_field name (text value) rest = field name (str value) rest

abbrev pub option_field : {A : Type 0} → String → (A → Json) → Option A → Fields → Fields
option_field name json none rest = rest
option_field name json (some value) rest = field name (json value) rest

abbrev pub item_list : {A : Type 0} → (A → Json) → List A → Items
item_list json [] = nil
item_list json (x ∷ xs) = cons (json x) (item_list json xs)

abbrev pub secret_json : ParticipantChannelSecret → Json
secret_json s = obj (
    field "gid_uuid" (str s.gid_uuid) (
      field "secret"
        (obj (
          field "encrypted_secret" (str s.secret.encrypted_secret) (
            field "header"
              (obj
                (field "alg" (str s.secret.header.alg) (field "kid" (str s.secret.header.kid) end)))
              end)))
        end))

-- a body as axios sends it and the publisher publishes it: properties that are undefined are left out
unfoldable pub channel_json : AddChannelBody → Json
channel_json body = obj (
    field "participants" (arr (item_list str body.participants)) (
      field "uuid" (str body.uuid) (
        field "exposed" (bool body.exposed) (
          field "type" (str (channel_type_text body.type)) (
            text_field "title" body.title (
              text_field "description" body.description (
                option_field "image_url" str body.image_url (
                  option_field "secrets" (λ ss. arr (item_list secret_json ss)) body.secrets
                    (option_field "group_uuid" str body.group_uuid end)))))))))
