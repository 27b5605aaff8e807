-- ===== src/Domain.antt =====
-- internal/domain: the services.
pub mod Calendar
pub mod Semesters
pub mod TokenService
pub mod Assignments
pub mod ZpaSync
