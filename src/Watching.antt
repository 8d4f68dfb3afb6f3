-- ===== src/Watching.antt =====
-- A client that watches an import: jobs/csv.processor.ts, the emitters of upload/upload.service.ts and
-- `streamProgress` of upload/upload.controller.ts on the server (node-pipeline/server/src), and
-- pages/Dashboard.tsx with hooks/useProgressTracking.ts on the client (node-pipeline/client/src).
pub mod Delivery
pub mod Arrival
pub mod Access
pub mod Journey
pub mod Failing
