-- ===== src/Grants.antt =====
-- Grants: who may read which part of a stream (src/products/services/grant.service.ts).
pub mod Range
pub mod Service
