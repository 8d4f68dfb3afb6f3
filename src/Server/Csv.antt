-- ===== src/Server/Csv.antt =====
-- The CSV job: jobs/csv.processor.ts.
pub mod Rows
pub mod Validation
pub mod Readings
pub mod Dates
pub mod Processor
pub mod Success
pub mod Import
pub mod Failure
pub mod Totality
pub mod Chunks
pub mod Partial
pub mod Emissions
