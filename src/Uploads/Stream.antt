-- ===== src/Uploads/Stream.antt =====
-- `InteractiveS3Stream._read`: the byte ranges that are asked of S3, one for each read.
pub mod Ranges
pub mod Download
use core_status.Data.Errors.{Error, Result, ok, err}
use core_status.Base.{
  ℕ, zero, suc, ◌+◌, ◌*◌, ◌++◌, Option, none, some, List, [], ◌∷◌, ltb, if◌then◌else◌,
}

-- `S3_READ_CHUNK_SIZE`
abbrev pub s3_read_chunk_size : ℕ
s3_read_chunk_size = 100 * 1024

-- `_currPos`, `_chunkSize`, `_maxLen`
pub record ReadState : Type 0 where
  pub curr_pos : ℕ
  pub chunk_size : ℕ
  pub max_len : ℕ

abbrev pub range_end : ReadState → ℕ
range_end s =
    if ltb (s.curr_pos + s.chunk_size) s.max_len then s.curr_pos + s.chunk_size else s.max_len

-- One read: the range `bytes=from-to`, or `none` for the end of the stream (`push(null)`).
unfoldable pub read : ReadState → Option (ℕ × ℕ) × ReadState
read s =
    if ltb s.max_len s.curr_pos
    then (none, s)
    else (some (s.curr_pos, range_end s), record s { curr_pos = range_end s + 1 })

-- the ranges of all reads until the end, on fuel; `none` where the fuel runs out
abbrev pub then_rest : Option (ℕ × ℕ) → Option (List (ℕ × ℕ)) → Option (List (ℕ × ℕ))
then_rest none rest = some []
then_rest (some r) none = none
then_rest (some r) (some rs) = some (r ∷ rs)

unfoldable pub ranges : ℕ → ReadState → Option (List (ℕ × ℕ))
unfolding read
ranges zero s = none
ranges (suc fuel) s = let rest = ranges fuel (read s).1 in then_rest (read s).0 rest

-- What a download passes on, read after read: the bytes that are pushed, and the error that the stream is destroyed
-- with, if any. `get_object from to` is the answer of S3 to `getObject` for the bytes `from` to `to`.
abbrev pub Transfer : Type 0
Transfer = List ℕ × Option Error

abbrev pub push_bytes : List ℕ → Option Transfer → Option Transfer
push_bytes bytes none = none
push_bytes bytes (some (more, end)) = some (bytes ++ more, end)

abbrev pub on_object : Result (List ℕ) → Option Transfer → Option Transfer
on_object (err e) rest = some ([], some e)
on_object (ok bytes) rest = push_bytes bytes rest

abbrev pub on_range : (ℕ → ℕ → Result (List ℕ)) → Option (ℕ × ℕ) → Option Transfer → Option Transfer
on_range get_object none rest = some ([], none)
on_range get_object (some (from, to)) rest = on_object (get_object from to) rest

-- all reads until the end of the stream, on fuel; `none` where the fuel runs out
unfoldable pub download : (ℕ → ℕ → Result (List ℕ)) → ℕ → ReadState → Option Transfer
unfolding read
download get_object zero s = none
download get_object (suc fuel) s =
    let rest = download get_object fuel (read s).1 in on_range get_object (read s).0 rest
