-- ===== src/Acl.antt =====
-- src/acl: access control.
pub mod Auth
pub mod Matchers
pub mod DomainFilter
pub mod Access
