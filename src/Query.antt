-- ===== src/Query.antt =====
-- Query parameters and the queries that they become (src/products/repositories/query.options.ts,
-- `find` and `query` of src/products/services/base.service.ts).
pub mod Text
pub mod Options
pub mod Builder
pub mod Owner
