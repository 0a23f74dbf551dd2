-- ===== src/Organizations/Preserve.antt =====
-- Every request of server/app/api/organizations.py keeps the tables sound.
pub mod Asking
pub mod Accounts
pub mod Members
pub mod Roles
pub mod Invites
pub mod Groups
pub mod Runs
