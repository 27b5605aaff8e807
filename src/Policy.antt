-- ===== src/Policy.antt =====
-- internal/policy: the rules about who may see and do what. Pure functions of an actor, the state
-- of a semester and the record in question.
pub mod Role
pub mod IdScope
pub mod Onlooker
pub mod Programme
pub mod SubjectGroup
pub mod Phase
pub mod Write
pub mod Semester
pub mod Wish
pub mod Assignment
pub mod DesiredHours
pub mod Competence
pub mod Reach
pub mod Narrow
pub mod TokenReach
pub mod Scope
