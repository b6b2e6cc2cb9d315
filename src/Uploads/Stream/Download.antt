-- ===== src/Uploads/Stream/Download.antt =====
-- What a download passes on of an object.
use mathlib.Core.List.{append_assoc, append-nil}
use core_status.Base.{
  ◌↔◌, ℕ, zero, suc, ◌+◌, ◌-◌, ◌*◌, ◌≤◌, ◌<◌, ◌≡◌, refl, sym, ap, ◌∙◌, Option, none, some, List, [],
  ◌∷◌, ◌++◌, length, length-append, arith,
}
use core_status.Data.Errors.{Error, Result, ok, err}
use core_status.Uploads.Stream.{ReadState, read, download}
use core_status.Uploads.Stream.Ranges.{start_of, read_full, read_end}

-- the first `n` bytes, and the bytes after them
abbrev pub first_bytes : ℕ → List ℕ → List ℕ
first_bytes zero xs = []
first_bytes (suc n) [] = []
first_bytes (suc n) (x ∷ xs) = x ∷ first_bytes n xs

abbrev pub bytes_after : ℕ → List ℕ → List ℕ
bytes_after zero xs = xs
bytes_after (suc n) [] = []
bytes_after (suc n) (x ∷ xs) = bytes_after n xs

-- S3's `getObject` with a range: the bytes of the object from the first to the last of the range, as far as the object
-- goes, and an error for a range that begins behind the object.
pub record ServesRanges (content : List ℕ) (get_object : ℕ → ℕ → Result (List ℕ)) : Type 0 where
  pub within :
      (from to : ℕ)
      → from < length content
      → get_object from to ≡ ok (first_bytes (to + 1 - from) (bytes_after from content))
  pub behind : (from to : ℕ) → length content ≤ from → (e : Error) × (get_object from to ≡ err e)

first-after : (n : ℕ) (xs : List ℕ) → first_bytes n xs ++ bytes_after n xs ≡ xs
first-after zero xs = refl
first-after (suc n) [] = refl
first-after (suc n) (x ∷ xs) = ap (λ ys. x ∷ ys) (first-after n xs)

after-append : (done left : List ℕ) → bytes_after (length done) (done ++ left) ≡ left
after-append [] left = refl
after-append (x ∷ done) left = after-append done left

length-first : (n : ℕ) (xs : List ℕ) → n ≤ length xs → length (first_bytes n xs) ≡ n
length-first zero xs h = refl
length-first (suc n) [] h = absurd (omega arith)
length-first (suc n) (x ∷ xs) h = ap suc (length-first n xs (omega arith))

length-after : (n : ℕ) (xs : List ℕ) → n ≤ length xs → n + length (bytes_after n xs) ≡ length xs
length-after zero xs h = omega arith
length-after (suc n) [] h = absurd (omega arith)
length-after (suc n) (x ∷ xs) h = omega (arith, length-after n xs (omega arith))

first_all : (n : ℕ) (xs : List ℕ) → length xs ≤ n → first_bytes n xs ≡ xs
first_all zero [] h = refl
first_all zero (x ∷ xs) h = absurd (omega arith)
first_all (suc n) [] h = refl
first_all (suc n) (x ∷ xs) h = ap (λ ys. x ∷ ys) (first_all n xs (omega arith))

read_last :
    (pos size max : ℕ)
    → pos ≤ max
    → max ≤ pos + size
    → read (start_of pos size max) ≡ (some (pos, max), start_of (max + 1) size max)
unfolding read
read_last pos size max h k = ground arith

module _ (content : List ℕ) (get_object : ℕ → ℕ → Result (List ℕ))
    (serves : ServesRanges content get_object) (size : ℕ) where
  at_byte : ℕ → ReadState
  at_byte pos = start_of pos size (length content)

  serves_part :
      (done left : List ℕ) (to : ℕ)
      → content ≡ done ++ left
      → 0 < length left
      → get_object (length done) to ≡ ok (first_bytes (to + 1 - length done) left)
  serves_part done left to split some_left =
      serves.within (length done) to (rw split (omega (arith, length-append done left)))
      ∙ ap (λ xs. ok (first_bytes (to + 1 - length done) xs))
          (ap (bytes_after (length done)) split ∙ after-append done left)

  split_length :
      (done left : List ℕ) → content ≡ done ++ left → length content ≡ length done + length left
  split_length done left split = rw split (length-append done left)

  -- a read of a whole chunk, and what is read after it
  full_chunk :
      (fuel : ℕ) (done left : List ℕ) (end : Option Error)
      → content ≡ done ++ left
      → size < length left
      → ((done' left' : List ℕ)
          → content ≡ done' ++ left'
          → length left' + (size + 1) ≡ length left
          → download get_object fuel (at_byte (length done')) ≡ some (left', end))
      → download get_object (suc fuel) (at_byte (length done)) ≡ some (left, end)
  unfolding download at_byte
  full_chunk fuel done left end split more next =
      let part = first_bytes (size + 1) left in
      let left' = bytes_after (size + 1) left in
      let parts : part ++ left' ≡ left = first-after (size + 1) left in
      let at_next : length (done ++ part) ≡ length done + size + 1 =
        omega (arith, length-append done part, length-first (size + 1) left (omega arith)) in
      let rest =
        next (done ++ part) left'
          (split ∙ ap (λ xs. done ++ xs) (sym parts) ∙ sym (append_assoc done part left'))
          (omega (arith, length-after (size + 1) left (omega arith))) in
      let asked : get_object (length done) (length done + size) ≡ ok part =
        serves_part done left (length done + size) split (omega arith)
        ∙ ap (λ n. ok (first_bytes n left)) (omega arith) in
      rw
        (read_full (length done) size (length content)
          (omega (arith, split_length done left split)))
        (rw asked (rw (rw at_next at rest) (ap (λ xs. some (xs, end)) parts)))

  -- From a position that leaves whole chunks only, everything is passed on, and then the stream breaks.
  breaks_from :
      (fuel m : ℕ) (done left : List ℕ) (e : Error)
      → get_object (length content) (length content) ≡ err e
      → content ≡ done ++ left
      → length left ≡ m * (size + 1)
      → m < fuel
      → download get_object fuel (at_byte (length done)) ≡ some (left, some e)
  unfolding download at_byte
  breaks_from zero m done left e refused split whole_chunks enough = absurd (omega arith)
  breaks_from (suc fuel) zero done [] e refused split whole_chunks enough =
      let at_end : length done ≡ length content = omega (arith, split_length done [] split) in
      rw (read_last (length done) size (length content) (omega arith) (omega arith))
        (rw (ap (λ n. get_object n (length content)) at_end ∙ refused) refl)
  breaks_from (suc fuel) zero done (x ∷ left) e refused split whole_chunks enough =
      absurd (omega arith)
  breaks_from (suc fuel) (suc m) done left e refused split whole_chunks enough =
      full_chunk fuel done left (some e) split (grind arith) (λ done' left' split' shorter.
        breaks_from fuel m done' left' e refused split' (grind arith) (omega arith))

  -- From a position that leaves a part of a chunk, everything is passed on, and the stream ends.
  ends_from :
      (fuel m part : ℕ) (done left : List ℕ)
      → content ≡ done ++ left
      → length left ≡ m * (size + 1) + part
      → 0 < part
      → part ≤ size
      → m + 1 < fuel
      → download get_object fuel (at_byte (length done)) ≡ some (left, none)
  unfolding download at_byte
  ends_from zero m part done left split chunks p0 p1 enough = absurd (omega arith)
  ends_from (suc zero) zero part done left split chunks p0 p1 enough = absurd (omega arith)
  ends_from (suc (suc fuel)) zero part done left split chunks p0 p1 enough =
      let size_of = split_length done left split in
      let asked : get_object (length done) (length content) ≡ ok left =
        serves_part done left (length content) split (omega arith)
        ∙ ap ok (first_all (length content + 1 - length done) left (omega arith)) in
      rw (read_last (length done) size (length content) (omega arith) (omega arith)) (
        rw asked (
          rw (read_end (length content + 1) size (length content) (omega arith))
            (ap (λ xs. some (xs, none)) (append-nil left))))
  ends_from (suc fuel) (suc m) part done left split chunks p0 p1 enough =
      full_chunk fuel done left none split (grind arith) (λ done' left' split' shorter.
        ends_from fuel m part done' left' split' (grind arith) p0 p1 (omega arith))

-- Every download passes on all bytes of the object, in order. Where the object's length is a whole number of chunks
-- of `size + 1` bytes, the empty object included, the stream then breaks with the error of a last read behind the
-- object; at every other length it ends.
pub download_whole :
    (content : List ℕ) (get_object : ℕ → ℕ → Result (List ℕ))
    (serves : ServesRanges content get_object) (size m part : ℕ)
    → length content ≡ m * (size + 1) + part
    → part ≤ size
    → (end : Option Error) × (download get_object (m + 2) (start_of 0 size (length content))
        ≡ some (content, end))
      × ((end ≡ none) ↔ (0 < part))
unfolding at_byte
download_whole content get_object serves size m zero chunks small =
    let (e, refused) = serves.behind (length content) (length content) (omega arith) in
    (
      some e,
      breaks_from content get_object serves size (m + 2) m [] content e refused refl
          (omega (arith, chunks)) (omega arith),
      ((λ h. cc), (λ h. absurd (omega arith))),
    )
download_whole content get_object serves size m (suc part) chunks small = (
  none,
  ends_from content get_object serves size (m + 2) m (suc part) [] content refl chunks (omega arith)
      small (omega arith),
  ((λ h. omega arith), (λ h. refl)),
)
