-- ===== src/Access.antt =====
-- Authorization: the tables of roles, bindings and ownership (`Tables`), the decisions of the
-- permission service (`Decisions`) and the guards of the routes (`Guards`).
pub mod Tables
pub mod Decisions
pub mod Grants
pub mod Permission
pub mod Guards
pub mod FailClosed
pub mod Passing
pub mod Ownership
pub mod Permitted
mod Tests
