-- ===== src/Pubnub/Waiting.antt =====
-- The wait for a subscriber of a channel (`waitUntilSubscribed` of src/products/pubnub/pubnub.ts): one poll of
-- `hereNow` a second until the recipient is among the occupants. The polls are counted, since the loop has no
-- other bound: the fuel is the number of polls that are looked at, and `none` is a loop that still runs.
pub mod Resolves
use core_status.Base.{
  ℕ, zero, suc, String, Bool, true, false, Option, none, some, List, [], ◌∷◌, ◌===◌, any_of,
  if◌then◌else◌,
}
use core_status.Data.Errors.{Result, ok, err, type_error}

-- `HereNowResponse`: the uuids of the occupants of each channel that it lists
abbrev pub HereNowResponse : Type 0
HereNowResponse = List (String × List String)

-- one poll: whether there is a client, and what `hereNow` answers it, with `none` for `undefined`
pub record Poll : Type 0 where
  pub client : Bool
  pub answer : Result (Option HereNowResponse)

-- `response.channels[grantChannel].occupants`
abbrev pub occupants : String → HereNowResponse → Option (List String)
occupants channel [] = none
occupants channel ((name, uuids) ∷ rest) =
    if name === channel then some uuids else occupants channel rest

abbrev is_found : String → Option (List String) → Result Bool
is_found recipient none = err type_error
is_found recipient (some uuids) = ok (any_of (λ uuid. uuid === recipient) uuids)

abbrev is_there : String → String → Result (Option HereNowResponse) → Result Bool
is_there channel recipient (err e) = err e
is_there channel recipient (ok none) = ok false
is_there channel recipient (ok (some response)) = is_found recipient (occupants channel response)

-- what a poll tells: that the recipient is there or is not; or it throws
unfoldable pub seen : String → String → Poll → Result Bool
seen channel recipient poll =
    if poll.client then is_there channel recipient poll.answer else err type_error

-- `break`, a throw, or another round
abbrev pub ending : Result Bool → Option (Result (Unit {0}))
ending (ok true) = some (ok tt)
ending (ok false) = none
ending (err e) = some (err e)

-- The loop from poll `n` on: the poll that ends it, and how.
unfoldable pub wait_until_subscribed :
    (ℕ → Poll) → String → String → ℕ → ℕ → Option (ℕ × Result (Unit {0}))
unfolding seen
wait_until_subscribed polls channel recipient zero n = none
wait_until_subscribed polls channel recipient (suc fuel) n =
    elim (ending (seen channel recipient (polls n))) [
      | some end ↦ some (n, end)
      | none ↦ wait_until_subscribed polls channel recipient fuel (suc n)
    ]
