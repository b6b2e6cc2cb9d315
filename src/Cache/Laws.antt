-- ===== src/Cache/Laws.antt =====
-- Reading back what was cached.
use core_status.Base.{
  String, ◌≡◌, arith, some, ===_iff, Option, ◌===◌, if◌then◌else◌, ◌∙◌, ap, refl,
}
use core_status.Data.Errors.{ok}
use core_status.Data.Json.{Json}
use core_status.Effects.{World, Env}
use core_status.Effects.Laws.{IsRedis}
use core_status.Cache.{read_value, write_value, get, set}

pub get_inv :
    (env : Env) (key : String) (w w' : World) (read : Json)
    → get env key w ≡ (ok read, w')
    → (v : Option String) × (env.redis_get key w.strings ≡ ok v)
      × (read ≡ read_value env v)
      × (w' ≡ w)
unfolding get
get_inv env key w w' read h = ground arith

pub set_inv :
    (env : Env) (key : String) (value : Json) (w w' : World)
    → set env key value w ≡ (ok tt, w')
    → env.redis_set key (write_value env value) w.strings ≡ ok w'.strings
unfolding set
set_inv env key value w w' h = ground arith

-- A value that was set is read as the text that was sent for it, whatever was there before.
pub get-set :
    (env : Env) (laws : IsRedis env) (key : String) (value : Json) (w w' w'' : World) (read : Json)
    → set env key value w ≡ (ok tt, w')
    → get env key w' ≡ (ok read, w'')
    → read ≡ read_value env (some (write_value env value))
get-set env laws key value w w' w'' read a b =
    let (v, reads, same, _) = get_inv env key w' w'' read b in
    let written : w'.strings key
        ≡ (if key === key then some (write_value env value) else w.strings key) =
      laws.set_writes key (write_value env value) _ _ (set_inv env key value w w' a) key in
    same ∙ ap (read_value env) (laws.get_reads key _ v reads ∙ written ∙ if_self)
  where
    if_self :
        (if key === key then some (write_value env value) else w.strings key)
        ≡ some (write_value env value)
    if_self = rw ((===_iff key key).1 refl)
