-- ===== src/Clients/Bodies/Accepted.antt =====
-- Which channels can be asked for.
use core_status.Base.{
  String, ◌≡◌, ◌≤◌, ◌⊎◌, inl, inr, refl, true, false, List, [], ◌∷◌, length, arith, ◌++◌,
}
use core_status.Data.Errors.{ok}
use core_status.Data.Messages.{http_call, publish_channel}
use core_status.Clients.Bodies.{channel_json}
use core_status.Clients.Requests.{create_channel}
use core_status.Clients.Tokens.{authorized, create_channel_history}
use core_status.Data.Json.{Json}
use core_status.Effects.{World, Env}
use core_status.Clients.Api.{handle_create_channel}
use core_status.Access.Laws.{Distinct}
use core_status.Clients.Bodies.{
  ChannelType, service, presence, personal, multi, group, group_custom, participants_length, Checks,
  AddChannelBody, array_unique, accepts_channel,
}

array_unique-Distinct : (xs : List String) → array_unique xs ≡ true → Distinct xs
array_unique-Distinct [] h = tt
array_unique-Distinct (x ∷ xs) h = (ground arith, array_unique-Distinct xs (ground arith))

-- the participants of a channel by its type
abbrev pub Fits : ChannelType → List String → Type 0
Fits type participants =
    ((type ≡ personal) × (length participants ≡ 1))
    ⊎ ((type ≡ multi) × (3 ≤ length participants) × (length participants ≤ 37))

by_type :
    (checks : Checks) (body : AddChannelBody) (type : ChannelType)
    → body.type ≡ type
    → accepts_channel checks body ≡ true
    → Fits type body.participants
unfolding accepts_channel participants_length
by_type checks body personal e h = inl (refl, ground arith)
by_type checks body multi e h = inr (refl, ground arith, ground arith)
by_type checks body group e h = absurd (ground arith)
by_type checks body service e h = absurd (ground arith)
by_type checks body presence e h = absurd (ground arith)
by_type checks body group_custom e h = absurd (ground arith)

accepted_participants :
    (checks : Checks) (body : AddChannelBody)
    → accepts_channel checks body ≡ true
    → Distinct body.participants × Fits body.type body.participants
unfolding accepts_channel
accepted_participants checks body h =
    (array_unique-Distinct body.participants (ground arith), by_type checks body body.type refl h)

-- A channel that is created was asked for with distinct participants, one for a personal channel and 3 to 37 for one of
-- several people, and is of no other type; the request was sent under the caller's token with the body's JSON, and
-- the body was published after the answer, outside of debugging.
pub created_participants :
    (env : Env) (checks : Checks) (token : String) (body : AddChannelBody) (w w' : World)
    (answer : Json)
    → env.is_debug ≡ false
    → handle_create_channel env checks token body w ≡ (ok answer, w')
    → Distinct body.participants
      × Fits body.type body.participants
      × (w'.history
          ≡ w.history
            ++ http_call (authorized token (create_channel env body))
              ∷ publish_channel (channel_json body)
              ∷ [])
unfolding handle_create_channel
created_participants env checks token body w w' answer live h =
    let accepted : accepts_channel checks body ≡ true = ground arith in
    let (distinct, fits) = accepted_participants checks body accepted in
    (distinct, fits, (create_channel_history env token body w w' answer live (ground arith)).0)
