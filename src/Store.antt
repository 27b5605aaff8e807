-- ===== src/Store.antt =====
-- internal/store: the tables, as far as they are modelled.
pub mod Semesters
pub mod Rows
pub mod Assignments
pub mod Zpa
pub mod Tokens
