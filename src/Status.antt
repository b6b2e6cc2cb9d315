-- ===== src/Status.antt =====
-- Status updates (src/products/services/status.service.ts).
pub mod Read
pub mod Write
pub mod Remove
pub mod Lifecycle
