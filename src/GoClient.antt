-- ===== src/GoClient.antt =====
-- The client of the Go pipeline, go-pipeline/client/src: its data, its hooks, its dashboard and
-- what its components show. The server that it talks to is another program: its answers are
-- arguments of events.
pub mod Jobs
pub mod Progress
pub mod Uploads
pub mod Imports
pub mod Products
pub mod Api
pub mod Dashboard
pub mod Screens
pub mod Table
pub mod Reports
