-- ===== src/Status/Read/Revoked.antt =====
-- A reader without a grant for every instant of a range, among them one whose grant was deleted.
use mathlib.Core.Path.{subst}
use core_status.Base.{ℕ, String, ◌≡◌, ◌≤◌, false, not, some, arith, In, In-select, inl, inr}
use core_status.Data.Errors.{Error, ok, err, Result-cases}
use core_status.Data.Entities.{Grant}
use core_status.Data.Requests.{TimeRangeDto}
use core_status.Effects.{World, Env}
use core_status.Effects.Laws.{IsTable}
use core_status.Grants.Range.{check_continuous_range}
use core_status.Grants.Range.Coverage.{IsSortBy}
use core_status.Grants.Service.{meets, get_by_range, is_own, delete}
use core_status.Grants.Service.Delete.{delete_removes}
use core_status.Status.Read.{get_user_status_by_stream_id}
use core_status.Status.Read.Granted.{IsGrantFor, grant_found}

module _ (env : Env) (sorts : IsSortBy env.sort_by_from_date) (laws : IsTable env.grant_table)
    (r s : String) (range : TimeRangeDto) (lo hi : ℕ) (from : env.date range.from_date ≡ some lo)
    (to : env.date range.to_date ≡ some hi) where
  -- A request for a range with an instant that no grant of the reader covers is refused, and nothing changes.
  pub ungranted_refused :
      (w : World) (t : ℕ)
      → lo ≤ t
      → t ≤ hi
      → ((g : Grant) → IsGrantFor r s w g → g.from_date ≤ t → t ≤ g.to_date → ⊥)
      → (e : Error) × (get_user_status_by_stream_id env r s range w ≡ (err e, w))
  unfolding get_user_status_by_stream_id get_by_range
  ungranted_refused w t a b bare =
      elim (Result-cases (env.grant_table.find (meets env r s range) w.grants)) [
        | inr (e, failed) ↦ (e, ground arith)
        | inl (grants, found) ↦
            elim (Result-cases
              (check_continuous_range env.sort_by_from_date env.date grants range)) [
                | inr (e, refused) ↦ (e, ground arith)
                | inl (u, passed) ↦
                    (let got : get_by_range env r s range w ≡ (ok grants, w) = ground arith in
                      let (g, hit, grant, c, d) =
                        grant_found env sorts laws r s range lo hi from to w w grants got
                          (ground arith) t a b in
                      absurd (bare g grant c d))
              ]
      ]

  -- After a grant was deleted, a request of its holder is refused, and changes nothing, for every range with an instant
  -- that no other grant of the holder on the stream covers.
  pub deleted_grant_refused :
      (id owner_id : String) (w w' : World) (g : Grant) (t : ℕ)
      → delete env id owner_id w ≡ (ok g, w')
      → g.recipient_id ≡ r
      → g.stream_id ≡ s
      → lo ≤ t
      → t ≤ hi
      → ((h : Grant)
          → IsGrantFor r s w h
          → is_own id owner_id h ≡ false
          → h.from_date ≤ t
          → t ≤ h.to_date
          → ⊥)
      → (e : Error) × (get_user_status_by_stream_id env r s range w' ≡ (err e, w'))
  deleted_grant_refused id owner_id w w' g t deleted of_r of_s a b others =
      let rows = (delete_removes env laws id owner_id w w' g deleted).3 in
      ungranted_refused w' t a b (λ h grant c d.
        let (there, kept) =
          In-select (λ x. not (is_own id owner_id x)) h w.grants
            (subst (λ l. In h l) rows grant.0) in
        others h (there, grant.1, grant.2) (ground arith) c d)
