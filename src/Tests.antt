-- ===== src/Tests.antt =====
-- The theorems at concrete inputs, and runs of the definitions.
mod People
mod Reads
mod Narrowing
mod Process
mod Credentials
mod Tokens
mod Service
mod Browser
mod Fields
mod Terms
mod Workflow
mod Staffing
mod Import
