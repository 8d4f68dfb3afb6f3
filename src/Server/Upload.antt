-- ===== src/Server/Upload.antt =====
-- The upload module: upload/upload.service.ts and upload/upload.controller.ts.
pub mod Service
pub mod Queueing
pub mod Hub
pub mod Streams
pub mod Sharing
pub mod Controller
pub mod Listing
pub mod Processing
