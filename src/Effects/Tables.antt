-- ===== src/Effects/Tables.antt =====
-- A TypeORM repository, as the services call it, over the rows of its table. `D` is what is saved. A `where`
-- option is the test that it stands for; `update` and `remove` return the rows that they touched
-- (`returning`) and the new table.
use core_status.Base.{Bool, Option, List}
use core_status.Data.Errors.{Result}

pub record Table (E D : Type 0) : Type 0 where
  pub find : (E → Bool) → List E → Result (List E)
  pub find_one : (E → Bool) → List E → Result (Option E)
  pub insert : D → List E → Result (E × List E)
  pub update : (E → Bool) → (E → E) → List E → Result (List E × List E)
  pub remove : (E → Bool) → List E → Result (List E × List E)
