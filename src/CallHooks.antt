-- ===== src/CallHooks.antt =====
-- The hooks that an administrator sets for a type of call, server/app/services/admin/call_hooks.py:
-- Redact what may be logged of a request, Secrets its headers, Dispatch the calls themselves.
pub mod Redact
pub mod Masked
pub mod Lacks
pub mod Secrets
pub mod Dispatch
pub mod Calls
pub mod Rows
pub mod Logged
pub mod Sent
pub mod Outcomes
mod Tests
