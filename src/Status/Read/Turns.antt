-- ===== src/Status/Read/Turns.antt =====
-- The calls of `Promise.all` in `getUserStatusByStreamId` as they really run, of any number of requests: a call reads
-- the cache, and in a later turn re-encrypts and stores; between its turns any other call may take its own
-- (src/products/services/status.service.ts).
mod Keeps
pub mod Genuine
pub mod Sequential
use core_status.Base.{String, ◌≡◌, List, In}
use core_status.Data.Errors.{Result, ok}
use core_status.Data.Json.{Json}
use core_status.Data.Entities.{Grant, Update}
use core_status.Data.Requests.{GrantDto, TimeRangeDto}
use core_status.Effects.{World, Env}
use core_status.Cache.{build_status_update_key, get}
use core_status.Grants.Range.{check_continuous_range}
use core_status.Grants.Service.{get_by_range, save, delete, modify_range}
use core_status.Status.Lifecycle.{Step}
use core_status.Status.Read.{Served, in_range, re_encrypt_and_cache}

-- What can be reached by turns of readers' requests and by calls that change grants and updates, where requests are made with the ids of `IsId`: a turn may go on with the grants and
-- the updates that its request has read in worlds that were reached before.
pub data Reached (env : Env) (IsId : String → Type 0) (start : World) : World → Type 0 where
  here : Reached env IsId start start
  looks :
      {w : World} (recipient_id stream_id : String) (update : Update) (cached : Result Json)
      (w' : World)
      → Reached env IsId start w
      → get env (build_status_update_key recipient_id stream_id update.id) w ≡ (cached, w')
      → Reached env IsId start w'
  stores :
      {v₁ v₂ w : World} (recipient_id stream_id : String) (range : TimeRangeDto)
      (grants : List Grant) (updates : List Update) (update : Update) (served : Result Served)
      (w' : World)
      → IsId recipient_id
      → IsId stream_id
      → Reached env IsId start v₁
      → get_by_range env recipient_id stream_id range v₁ ≡ (ok grants, v₁)
      → check_continuous_range env.sort_by_from_date env.date grants range ≡ ok tt
      → Reached env IsId start v₂
      → env.find_updates_by_upload (in_range env stream_id range) v₂.updates ≡ ok updates
      → In update updates
      → Reached env IsId start w
      → re_encrypt_and_cache env grants
          (build_status_update_key recipient_id stream_id update.id)
          update
          w
        ≡ (served, w')
      → Reached env IsId start w'
  -- the other operations on the tables of grants and updates, however they end
  saves_grant :
      {w : World} (uuid : String) (dto : GrantDto) (scopes : List String)
      → Reached env IsId start w
      → Reached env IsId start (save env uuid dto scopes w).1
  deletes_grant :
      {w : World} (id owner_id : String)
      → Reached env IsId start w
      → Reached env IsId start (delete env id owner_id w).1
  modifies_grant :
      {w : World} (id owner_id : String) (dates : TimeRangeDto)
      → Reached env IsId start w
      → Reached env IsId start (modify_range env id owner_id dates w).1
  changes_updates :
      {w w' : World} → Reached env IsId start w → Step env w w' → Reached env IsId start w'
