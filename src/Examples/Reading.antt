-- ===== src/Examples/Reading.antt =====
-- What Bob is answered with while he has two grants, and after one of them was deleted.
use mathlib.Core.Bool.{false≢true}
use native.Mathlib.Decide.{dec_lt}
use core_status.Base.{
  ap, suc, ◌<◌, none, ===_iff, ℕ, ◌≡◌, ◌≤◌, ◌↔◌, refl, sym, false, some, List, [], ◌∷◌, In, inl,
  inr, arith, select-In, select,
}
use core_status.Data.Errors.{Error, ok, err, type_error}
use core_status.Data.Json.{str, truthy}
use core_status.Data.Entities.{Grant, GrantProperties, Update}
use core_status.Data.Requests.{TimeRangeDto, SingleUpdateDeleteOptions}
use core_status.Effects.{World, Env}
use core_status.Effects.Laws.{IsRedis}
use core_status.Pre.{parse, re_encrypt_payload}
use core_status.Cache.{build_status_update_key, read_value}
use core_status.Grants.Service.{delete, is_own}
use core_status.Subscribers.{remove_from_channel_group}
use core_status.Status.Read.{Served, get_user_status_by_stream_id}
use core_status.Status.Read.Granted.{IsGrantFor}
use core_status.Status.Read.Revoked.{deleted_grant_refused}
use core_status.Status.Read.Blocked.{removed_update_blocks}
use core_status.Status.Read.Succeeds.{StoresAnswer, Opens, granted_request_succeeds}
use core_status.Status.Remove.{remove_status_update}
use core_status.Status.Read.Complete.{FindsAll, served_iff}
use core_status.Examples.Memory.{memory_table-IsTable}
use core_status.Examples.Sorting.{sort_grants-IsSortBy}
use core_status.Examples.Sample.{sample, start, early, late, morning, sample-FindsUpdates}

abbrev pub spring_to_summer : TimeRangeDto
spring_to_summer = record { from_date = "spring"; to_date = "summer" }

abbrev served_morning : Served
served_morning = record { update = morning; payload = str "text" }

abbrev pub read : World
unfolding get_user_status_by_stream_id
read = (get_user_status_by_stream_id sample "bob" "stream-1" spring_to_summer start).1

pub reads :
    get_user_status_by_stream_id sample "bob" "stream-1" spring_to_summer start
    ≡ (ok (served_morning ∷ []), read)
unfolding get_user_status_by_stream_id core_status.Grants.Service.get_by_range
    core_status.Grants.Range.check_continuous_range core_status.Cache.get build_status_update_key
    core_status.Pre.re_encrypt_payload core_status.Cache.set
reads = refl

pub in_cache :
    core_status.Cache.get sample (build_status_update_key "bob" "stream-1" morning.id) read
    ≡ (ok (str "text"), read)
unfolding get_user_status_by_stream_id core_status.Grants.Service.get_by_range
    core_status.Grants.Range.check_continuous_range core_status.Cache.get build_status_update_key
    core_status.Pre.re_encrypt_payload core_status.Cache.set
in_cache = refl

pub sample-FindsAll : FindsAll sample
sample-FindsAll p rows found h u i t = rw (← same) (select-In p u rows i t)
  where
    same : select p rows ≡ found
    same = ground arith

served_iff_example : ((y : Served) × In y (served_morning ∷ []) × (y.update ≡ morning)) ↔ (
    In morning start.updates
    × (morning.stream_id ≡ "stream-1")
    × (10 ≤ morning.recorded_at)
    × (morning.recorded_at ≤ 20))
served_iff_example =
    served_iff sample sort_grants-IsSortBy (memory_table-IsTable _) "bob" "stream-1"
      spring_to_summer 10 20 refl refl sample-FindsUpdates sample-FindsAll refl refl start read
      (served_morning ∷ []) morning reads

abbrev deleted : World
unfolding delete
deleted = (delete sample "early" "alice" start).1

deletes_early : delete sample "early" "alice" start ≡ (ok early, deleted)
unfolding delete remove_from_channel_group core_status.Subscribers.leave_channel
    core_status.Pubnub.unsubscribe_from_channel
    core_status.Pubnub.remove_channels_from_pubnub_channel_group
deletes_early = refl

-- At 12 the late grant has not begun.
only_early :
    (h : Grant)
    → IsGrantFor "bob" "stream-1" start h
    → is_own "early" "alice" h ≡ false
    → h.from_date ≤ 12
    → 12 ≤ h.to_date
    → ⊥
only_early h (inl is_late, of_bob, of_stream) other a b = absurd (ground arith)
only_early h (inr (inl is_early), of_bob, of_stream) other a b =
    absurd (false≢true (sym (rw is_early at other)))
only_early h (inr (inr left), of_bob, of_stream) other a b = absurd left

deleted_grant_refused_example :
    (e : Error) × (get_user_status_by_stream_id sample "bob" "stream-1" spring_to_summer deleted
      ≡ (err e, deleted))
deleted_grant_refused_example =
    deleted_grant_refused sample sort_grants-IsSortBy (memory_table-IsTable _) "bob" "stream-1"
      spring_to_summer 10 20 refl refl "early" "alice" start deleted early 12 deletes_early refl
      refl (omega arith) (omega arith) only_early

sample-StoresAnswer : StoresAnswer sample
sample-StoresAnswer = record {
  find_grants = λ p rows. (_, refl);
  find_updates = λ p rows. (_, refl);
  get = λ key m. refl;
  set = λ key value m. (_, refl);
}

abbrev OfBob : Grant → Type 0
OfBob g = IsGrantFor "bob" "stream-1" start g

runs_forward : (g : Grant) → OfBob g → g.from_date ≤ g.to_date
runs_forward g (inl is, of_bob, of_stream) = rw is (omega arith)
runs_forward g (inr (inl is), of_bob, of_stream) = rw is (omega arith)
runs_forward g (inr (inr left), of_bob, of_stream) = absurd left

covered :
    (t : ℕ) → 10 ≤ t → t < 20 → (g : Grant) × OfBob g × (g.from_date ≤ t) × (suc t ≤ g.to_date)
covered t a b = elim (dec_lt t 15) [
  | yes p ↦ (early, (inr (inl refl), refl, refl), omega arith, omega arith)
  | no p ↦ (late, (inl refl, refl, refl), omega arith, omega arith)
]

abbrev bobs : GrantProperties
bobs = record { re_encryption_key = "key-"; e2e_key = "e2e" }

Opens-text :
    (u : Update) (g : Grant)
    → (p : GrantProperties) × (g.properties ≡ some p)
    → Opens sample sample-StoresAnswer "bob" "stream-1" u g
unfolding re_encrypt_payload
Opens-text u g (p, has) = (p, "text", has, refl)

Opens-bob :
    (u : Update) (g : Grant) → OfBob g → Opens sample sample-StoresAnswer "bob" "stream-1" u g
Opens-bob u g (inl is, of_bob, of_stream) =
    Opens-text u g (bobs, ap (λ (h : Grant). h.properties) is)
Opens-bob u g (inr (inl is), of_bob, of_stream) =
    Opens-text u g (bobs, ap (λ (h : Grant). h.properties) is)
Opens-bob u g (inr (inr left), of_bob, of_stream) = absurd left

granted_request_succeeds_example :
    (served : List Served) × (w' : World) × (get_user_status_by_stream_id sample "bob" "stream-1"
        spring_to_summer start
      ≡ (ok served, w'))
granted_request_succeeds_example =
    granted_request_succeeds sample sample-StoresAnswer "bob" "stream-1" sort_grants-IsSortBy
      (memory_table-IsTable _) sample-FindsUpdates spring_to_summer 10 20 refl refl refl refl start
      early (omega arith) runs_forward (inr (inl refl), refl, refl) (omega arith) (omega arith)
      covered (λ u g row of_s a b grant c d. Opens-bob u g grant)

-- the sample system where null is no text of bytes
abbrev strict : Env
strict = record sample {
  hex_to_bytes = λ chunk. elim chunk [ none ↦ err type_error | some s ↦ ok "plain" ];
}

strict-IsRedis : IsRedis strict
strict-IsRedis = record {
  get_reads = λ k m v h. ground arith;
  set_writes = λ k value m m' h j. ground arith;
  smembers_reads = λ k m v h. ground arith;
  sadd_adds = λ k value m m' h. ground (arith, ===_iff k k);
}

abbrev of_morning : SingleUpdateDeleteOptions
of_morning = record { id = "update-1"; stream_id = "stream-1" }

abbrev without_morning : World
unfolding remove_status_update
without_morning = (remove_status_update strict "alice" of_morning start).1

removes :
    remove_status_update strict "alice" of_morning start
    ≡ (ok (record { id = "update-1"; comment = "deleted" }), without_morning)
unfolding remove_status_update
removes = refl

only_morning : (x : Update) → In x start.updates → x.id ≡ morning.id → x ≡ morning
only_morning x (inl is) same = is
only_morning x (inr left) same = absurd left

uncached :
    truthy (read_value strict (start.strings (build_status_update_key "bob" "stream-1" "update-1")))
    ≡ false
unfolding read_value build_status_update_key
uncached = refl

no_null : parse strict none ≡ err type_error
unfolding parse
no_null = refl

removed_update_blocks_example :
    (x : Error) × ((get_user_status_by_stream_id strict "bob" "stream-1" spring_to_summer
        without_morning).0
      ≡ err x)
removed_update_blocks_example =
    removed_update_blocks strict strict-IsRedis (memory_table-IsTable _) (memory_table-IsTable _)
      (memory_table-IsTable _) sample-FindsUpdates sample-FindsAll "alice" "bob" of_morning
      spring_to_summer start without_morning (record { id = "update-1"; comment = "deleted" })
      morning type_error removes (inl refl) refl refl only_morning uncached no_null
