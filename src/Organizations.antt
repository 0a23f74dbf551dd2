-- ===== src/Organizations.antt =====
-- Organizations, their members, invites and groups: server/app/services/organizations.py,
-- server/app/api/deps.py, server/app/api/organizations.py and `register` of server/app/api/auth.py.
pub mod Model
pub mod Service
pub mod Deps
pub mod Members
pub mod Invites
pub mod Groups
pub mod Counts
pub mod Ownership
pub mod Tables
pub mod Requests
pub mod Preserve
pub mod Permits
pub mod SingleUse
pub mod Resolve
pub mod Sharing
mod Tests
pub mod GroupMembers
