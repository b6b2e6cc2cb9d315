-- ===== src/Uploads/Request/Extracted.antt =====
-- What `extractFileFromRequest` settles with.
use mathlib.Core.List.{append_assoc, append-nil}
use core_status.Base.{
  ℕ, ◌≤◌, ◌≡◌, refl, ap, ◌∙◌, Option, none, some, List, [], ◌∷◌, ◌++◌, length, length-append, ltb,
  arith, if◌then◌else◌, Bool-cases, inl, inr,
}
use core_status.Data.Errors.{Result, ok, err}
use core_status.Uploads.Request.{
  max_db_file_size, Emitted, file_found, chunk, finish, too_long, no_file, append_data,
  check_length, receive, extract_file_from_request,
}

-- a file in chunks, and the end of the request
abbrev pub whole : List (List ℕ) → List Emitted
whole [] = finish ∷ []
whole (c ∷ cs) = chunk c ∷ whole cs

abbrev pub joined : List (List ℕ) → List ℕ
joined [] = []
joined (c ∷ cs) = c ++ joined cs

settled_stays :
    (so_far : Option (List ℕ)) (r : Result (List ℕ)) (cs : List (List ℕ))
    → receive so_far (some r) (whole cs) ≡ some r
unfolding receive
settled_stays none r [] = refl
settled_stays (some d) r [] = refl
settled_stays so_far r (c ∷ cs) = ground (arith, settled_stays (some (append_data so_far c)) r cs)

-- the outcome by the length of all chunks together
abbrev pub outcome : List ℕ → Result (List ℕ)
outcome bytes = if ltb max_db_file_size (length bytes) then err too_long else ok bytes

-- the emissions of a request with one file
abbrev pub with_file : List (List ℕ) → List Emitted
with_file cs = file_found ∷ whole cs

-- Once there is data within the limit, the rest settles by the whole length.
receive_rest :
    (d : List ℕ) (cs : List (List ℕ))
    → length d ≤ max_db_file_size
    → receive (some d) none (whole cs) ≡ some (outcome (d ++ joined cs))
unfolding receive
receive_rest d [] h = rw append-nil (ground arith)
receive_rest d (c ∷ cs) h = next_chunk (receive_rest (d ++ c) cs)
  where
    next_chunk :
        (length (d ++ c) ≤ max_db_file_size
          → receive (some (d ++ c)) none (whole cs) ≡ some (outcome ((d ++ c) ++ joined cs)))
        → receive (some (d ++ c)) (check_length none (d ++ c)) (whole cs)
          ≡ some (outcome (d ++ (c ++ joined cs)))
    next_chunk rest = elim (Bool-cases (ltb max_db_file_size (length (d ++ c)))) [
      | inl long ↦ rw long (
          settled_stays (some (d ++ c)) (err too_long) cs
          ∙ ground (arith, length-append (d ++ c) (joined cs), append_assoc d c (joined cs)))
      | inr fits ↦
          rw fits (rest (ground arith) ∙ ap (λ x. some (outcome x)) (append_assoc d c (joined cs)))
    ]

-- A file that comes whole in any chunks is answered with its bytes if they are within the limit, and refused as too
-- long if they are more; a request without a file, or with an empty one, is refused as having none.
pub extract_file_settles :
    (c : List ℕ) (cs : List (List ℕ))
    → (extract_file_from_request (with_file (c ∷ cs)) ≡ some (outcome (c ++ joined cs)))
      × (extract_file_from_request (with_file []) ≡ some (err no_file))
      × (extract_file_from_request (whole []) ≡ some (err no_file))
unfolding extract_file_from_request receive
extract_file_settles c cs = (first, refl, refl)
  where
    first : receive (some c) (check_length none c) (whole cs) ≡ some (outcome (c ++ joined cs))
    first = elim (Bool-cases (ltb max_db_file_size (length c))) [
      | inl long ↦
          rw long
            (settled_stays (some c) (err too_long) cs ∙ ground (arith, length-append c (joined cs)))
      | inr fits ↦ rw fits (receive_rest c cs (ground arith))
    ]
