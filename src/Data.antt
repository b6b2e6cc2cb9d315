-- ===== src/Data.antt =====
-- The data of the service: errors, JSON values, entities and request bodies.
pub mod Errors
pub mod Json
pub mod Entities
pub mod Requests
pub mod Messages
