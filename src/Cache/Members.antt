-- ===== src/Cache/Members.antt =====
-- Reading a set of the cache whose members are all JSON.
use core_status.Base.{String, ◌≡◌, refl, some, List, [], ◌∷◌, arith, In, inl, inr}
use core_status.Data.Json.{Json}
use core_status.Effects.{Env}
use core_status.Cache.{parse_all, read_members}

-- Each text of the list is JSON.
abbrev pub AllParse : Env → List String → Type 0
AllParse env [] = Unit
AllParse env (v ∷ vs) = ((j : Json) × (env.json_parse v ≡ some j)) × AllParse env vs

-- the values of all texts, each text's among them
abbrev Values : Env → List String → List Json → Type 0
Values env vs js = (v : String) (j : Json) → In v vs → env.json_parse v ≡ some j → In j js

parse_all_next :
    (env : Env) (v : String) (j : Json) (vs : List String) (js : List Json)
    → env.json_parse v ≡ some j
    → parse_all env vs ≡ some js
    → parse_all env (v ∷ vs) ≡ some (j ∷ js)
unfolding parse_all
parse_all_next env v j vs js e h = ground arith

Values-next :
    (env : Env) (v : String) (j : Json) (vs : List String) (js : List Json)
    → env.json_parse v ≡ some j
    → Values env vs js
    → Values env (v ∷ vs) (j ∷ js)
Values-next env v j vs js e h x y (inl same) parsed = inl (ground arith)
Values-next env v j vs js e h x y (inr i) parsed = inr (h x y i parsed)

parse_all-Values :
    (env : Env) (vs : List String)
    → AllParse env vs
    → (js : List Json) × (parse_all env vs ≡ some js) × Values env vs js
unfolding parse_all
parse_all-Values env [] h = ([], refl, λ v j i e. absurd i)
parse_all-Values env (v ∷ vs) ((j, e), h) =
    let (js, all, values) = parse_all-Values env vs h in
    (j ∷ js, parse_all_next env v j vs js e all, Values-next env v j vs js e values)

read_members_all :
    (env : Env) (vs : List String) (js : List Json)
    → parse_all env vs ≡ some js
    → read_members env vs ≡ js
unfolding read_members
read_members_all env vs js h = ground arith

-- The value of each member of a set whose members are all JSON is among what is read of it.
pub In-read_members :
    (env : Env) (vs : List String) (v : String) (j : Json)
    → AllParse env vs
    → In v vs
    → env.json_parse v ≡ some j
    → In j (read_members env vs)
In-read_members env vs v j h i e =
    let (js, all, values) = parse_all-Values env vs h in
    rw (read_members_all env vs js all) (values v j i e)
