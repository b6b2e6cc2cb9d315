-- ===== src/Uploads/Stream/Ranges.antt =====
-- The ranges that a download asks for.
use core_status.Base.{
  ℕ, zero, suc, ◌+◌, ◌*◌, ◌≤◌, ◌<◌, ◌≡◌, refl, Option, none, some, List, [], ◌∷◌, arith, ltb,
  Bool-cases, inl, inr, In,
}
use core_status.Uploads.Stream.{ReadState, range_end, read, then_rest, ranges}

-- The ranges follow one another without gap or overlap from `lo` to the byte `max`, each at most a
-- chunk and one byte long.
abbrev pub Tiles : ℕ → ℕ → ℕ → List (ℕ × ℕ) → Type 0
Tiles chunk max lo [] = lo ≡ max + 1
Tiles chunk max lo ((a, b) ∷ rs) =
    (a ≡ lo) × (a ≤ b) × (b ≤ a + chunk) × (b ≤ max) × Tiles chunk max (b + 1) rs

abbrev pub start_of : ℕ → ℕ → ℕ → ReadState
start_of pos chunk max = record { curr_pos = pos; chunk_size = chunk; max_len = max }

read_more :
    (pos chunk max : ℕ)
    → pos ≤ max
    → (b : ℕ) × (read (start_of pos chunk max) ≡ (some (pos, b), start_of (b + 1) chunk max))
      × (pos ≤ b)
      × (b ≤ pos + chunk)
      × (b ≤ max)
unfolding read
read_more pos chunk max h =
    (range_end (start_of pos chunk max), ground arith, ground arith, ground arith, ground arith)

pub read_end :
    (pos chunk max : ℕ) → max < pos → read (start_of pos chunk max) ≡ (none, start_of pos chunk max)
unfolding read
read_end pos chunk max h = ground arith

-- From any position up to one past `max`, the reads end, and their ranges tile what is left.
Tiles-from :
    (fuel pos chunk max : ℕ)
    → pos ≤ max + 1
    → max + 1 < pos + fuel
    → (rs : List (ℕ × ℕ)) × (ranges fuel (start_of pos chunk max) ≡ some rs)
      × Tiles chunk max pos rs
unfolding ranges
Tiles-from zero pos chunk max h f = absurd (omega arith)
Tiles-from (suc fuel) pos chunk max h f = elim (Bool-cases (ltb max pos)) [
  | inl done ↦ ([], rw (read_end pos chunk max (ground arith)) refl, ground arith)
  | inr more ↦
      (let (b, e, lo, size, hi) = read_more pos chunk max (ground arith) in
        let (rs, rest, tiles) = Tiles-from fuel (b + 1) chunk max (omega arith) (omega arith) in
        ((pos, b) ∷ rs, rw e (rw rest refl), (refl, lo, size, hi, tiles)))
]

-- Every download of an object of `max_len` bytes ends, and its ranges tile the bytes from 0 to `max_len`.
pub ranges_tile :
    (chunk max : ℕ)
    → (rs : List (ℕ × ℕ)) × (ranges (max + 2) (start_of 0 chunk max) ≡ some rs)
      × Tiles chunk max 0 rs
ranges_tile chunk max = Tiles-from (max + 2) 0 chunk max (omega arith) (omega arith)

pub read_full :
    (pos chunk max : ℕ)
    → pos + chunk < max
    → read (start_of pos chunk max)
      ≡ (some (pos, pos + chunk), start_of (pos + chunk + 1) chunk max)
unfolding read
read_full pos chunk max h = ground arith

then_rest_inv :
    (r : ℕ × ℕ) (rest : Option (List (ℕ × ℕ))) (rs : List (ℕ × ℕ))
    → then_rest (some r) rest ≡ some rs
    → (rs' : List (ℕ × ℕ)) × (rest ≡ some rs') × (rs ≡ r ∷ rs')
then_rest_inv r none rs h = cc
then_rest_inv r (some rs') rs h = (rs', refl, ground arith)

overrun :
    (k fuel pos chunk max : ℕ) (rs : List (ℕ × ℕ))
    → max ≡ pos + k * (chunk + 1)
    → ranges fuel (start_of pos chunk max) ≡ some rs
    → In (max, max) rs
unfolding ranges
overrun k zero pos chunk max rs e h = cc
overrun zero (suc fuel) pos chunk max rs e h =
    let (b, once, lo, size, hi) = read_more pos chunk max (omega arith) in
    let (rs', rest, same) =
      then_rest_inv (pos, b) (ranges fuel (start_of (b + 1) chunk max)) rs (rw once at h) in
    rw same (inl (ground arith))
overrun (suc k) (suc fuel) pos chunk max rs e h =
    let once = read_full pos chunk max (grind arith) in
    let (rs', rest, same) =
      then_rest_inv (pos, pos + chunk) (ranges fuel (start_of (pos + chunk + 1) chunk max)) rs
        (rw once at h) in
    rw same (inr (overrun k fuel (pos + chunk + 1) chunk max rs' (grind arith) rest))

-- Where the length of the object is a multiple of the chunk size plus one, the reads ask for the range from
-- `max_len` to `max_len`, which lies behind the object's last byte, `max_len - 1`.
pub ranges_overrun :
    (k chunk fuel : ℕ) (rs : List (ℕ × ℕ))
    → ranges fuel (start_of 0 chunk (k * (chunk + 1))) ≡ some rs
    → In (k * (chunk + 1), k * (chunk + 1)) rs
ranges_overrun k chunk fuel rs h = overrun k fuel 0 chunk (k * (chunk + 1)) rs (omega arith) h
