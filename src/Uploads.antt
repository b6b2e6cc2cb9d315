-- ===== src/Uploads.antt =====
-- Uploaded files (src/products/services/upload.service.ts, src/products/repositories/uploadRepository.ts,
-- src/products/util/interactive-stream.ts).
pub mod Request
pub mod Stream
pub mod Service
pub mod Keys
pub mod Handlers
