-- ===== src/Examples/Callers.antt =====
-- Callers of the sample system's clients.
use core_status.Base.{none, ◌≡◌, refl, some, [], ◌∷◌, ◌++◌, In, inl}
use core_status.Data.Errors.{ok}
use core_status.Data.Json.{str}
use core_status.Data.Messages.{HttpRequest, http_call}
use core_status.Effects.{World}
use core_status.Clients.{intercept}
use core_status.Clients.Requests as Requests
use core_status.Clients.Tokens.{authorized}
use core_status.Clients.Interleaving.{
  Client, fresh, call_under, passed, Reach, here, later, calls_under, intercepts, IsUnder,
  sent_with_given_token,
}
use core_status.Clients.Bodies.{AddChannelBody, multi, text, undefined, Checks, accepts_channel}
use core_status.Clients.Bodies.Accepted.{Fits, created_participants}
use core_status.Access.Laws.{Distinct}
use core_status.Base.{true}
use core_status.Clients.Api.{handle_create_channel}
use core_status.Data.Messages.{publish_channel}
use core_status.Clients.Bodies.{channel_json}
use core_status.Examples.Sample.{sample, start}

abbrev channel : AddChannelBody
channel = record {
  participants = "bob" ∷ "carol" ∷ "dave" ∷ [];
  uuid = "channel-1";
  exposed = true;
  type = multi;
  title = text "walkers";
  description = undefined;
  image_url = none;
  secrets = none;
  group_uuid = none;
}

abbrev request : HttpRequest
unfolding core_status.Clients.Requests.create_channel
request = Requests.create_channel sample channel

abbrev asked : Client
asked = call_under "token" request fresh

abbrev answered : Client
answered = passed (intercept sample (some "token") request) [] asked

reaches : Reach sample fresh answered
reaches = later (later here (calls_under fresh "token" request)) (intercepts asked request [] refl)

sends : In (authorized "token" request) answered.sent
unfolding intercept
sends = inl refl

sent_with_given_token_example : IsUnder answered.given (authorized "token" request)
unfolding intercept
sent_with_given_token_example =
    sent_with_given_token sample answered (authorized "token" request) refl reaches sends

-- tests that pass every id and address
abbrev checks : Checks
checks = record { is_uuid4 = λ s. true; is_url = λ s. true; trim = λ s. s; text_length = λ s. 7 }

abbrev handled : World
unfolding handle_create_channel
handled = (handle_create_channel sample checks "alice-token" channel start).1

handles :
    handle_create_channel sample checks "alice-token" channel start ≡ (ok (str "answer"), handled)
unfolding handle_create_channel accepts_channel
handles = refl

created_participants_example :
    Distinct channel.participants
    × Fits multi channel.participants
    × (handled.history
        ≡ start.history
          ++ http_call (authorized "alice-token" (Requests.create_channel sample channel))
            ∷ publish_channel (channel_json channel)
            ∷ [])
created_participants_example =
    created_participants sample checks "alice-token" channel start handled (str "answer") refl
      handles
