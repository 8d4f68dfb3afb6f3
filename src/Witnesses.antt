-- ===== src/Witnesses.antt =====
-- Runs of the server and of the client at concrete inputs.
mod Imports
mod Uploads
mod Values
mod Requests
mod Client
mod Table
mod Running
mod GoClient
mod Catalog
mod Decimals
