-- ===== src/Examples.antt =====
-- The theorems at work on one small system: tables in memory, a cache, a sort, and a run of each operation.
pub mod Memory
pub mod Sorting
pub mod Sample
pub mod Encoding
mod Ends
mod Turns
mod Boot
pub mod Reading
pub mod Asking
mod Appended
mod Grants
mod Statuses
mod Workers
mod Files
mod Texts
mod Lives
mod Streams
mod Callers
mod Pipeline
mod Catalogue
mod Crossing
