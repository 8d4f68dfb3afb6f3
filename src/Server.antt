-- ===== src/Server.antt =====
-- The NestJS server, node-pipeline/server/src.
pub mod Entities
pub mod Percentage
pub mod World
pub mod Batches
pub mod Rates
pub mod Csv
pub mod Upload
pub mod Products
pub mod Auth
