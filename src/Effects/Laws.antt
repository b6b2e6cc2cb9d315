-- ===== src/Effects/Laws.antt =====
-- What the services rely on of the libraries behind `Env`, as their documentation has it. Each theorem names the
-- laws that it uses.
use core_status.Base.{
  String, Bool, true, false, not, Option, none, some, List, [], ◌∷◌, ◌++◌, ◌≡◌, In, select, change,
  map, ◌===◌, if◌then◌else◌,
}
use core_status.Data.Errors.{ok}
use core_status.Data.Entities.{Grant}
use core_status.Effects.Tables.{Table}
use core_status.Effects.Worlds.{Strings, Sets, Env}

-- A repository acts on the rows that its condition selects; a call that throws changes nothing.
pub record IsTable {E D : Type 0} (t : Table E D) : Type 0 where
  pub find_sound :
      (p : E → Bool) (rows found : List E)
      → t.find p rows ≡ ok found
      → (x : E) → In x found
      → In x rows × (p x ≡ true)
  pub find_complete :
      (p : E → Bool) (rows found : List E)
      → t.find p rows ≡ ok found
      → (x : E) → In x rows
      → p x ≡ true
      → In x found
  pub find_one_some :
      (p : E → Bool) (rows : List E) (x : E)
      → t.find_one p rows ≡ ok (some x)
      → In x rows × (p x ≡ true)
  pub find_one_none :
      (p : E → Bool) (rows : List E)
      → t.find_one p rows ≡ ok none
      → (x : E) → In x rows
      → p x ≡ false
  pub insert_adds :
      (d : D) (rows rows' : List E) (x : E)
      → t.insert d rows ≡ ok (x, rows')
      → rows' ≡ rows ++ x ∷ []
  pub update_changes :
      (p : E → Bool) (f : E → E) (rows hit rows' : List E)
      → t.update p f rows ≡ ok (hit, rows')
      → (hit ≡ map f (select p rows)) × (rows' ≡ change p f rows)
  pub remove_takes :
      (p : E → Bool) (rows gone rows' : List E)
      → t.remove p rows ≡ ok (gone, rows')
      → (gone ≡ select p rows) × (rows' ≡ select (λ x. not (p x)) rows)

-- TypeORM runs `save` and its subscribers in one transaction, which is rolled back where one of them throws.
abbrev pub RollsBack : Env → Type 0
RollsBack env = (before now : List Grant) → env.roll_back before now ≡ before

-- Redis strings: what was set last under a key is read back.
pub record IsRedis (env : Env) : Type 0 where
  pub get_reads :
      (key : String) (m : Strings) (v : Option String) → env.redis_get key m ≡ ok v → v ≡ m key
  pub set_writes :
      (key value : String) (m m' : Strings)
      → env.redis_set key value m ≡ ok m'
      → (j : String) → m' j ≡ (if key === j then some value else m j)
  pub smembers_reads :
      (key : String) (m : Sets) (v : List String) → env.redis_smembers key m ≡ ok v → v ≡ m key
  pub sadd_adds :
      (key value : String) (m m' : Sets) → env.redis_sadd key value m ≡ ok m' → In value (m' key)
