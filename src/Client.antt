-- ===== src/Client.antt =====
-- The React client, node-pipeline/client/src.
pub mod Dashboard
pub mod Select
pub mod Session
pub mod SignIn
pub mod Batches
pub mod Network
pub mod Panels
pub mod Products
pub mod Table
