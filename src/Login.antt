-- ===== src/Login.antt =====
-- The protection against guessed passwords: internal/store/login_failures.go, the shared table of
-- failures, and internal/handler/login_guard.go, the verdict before a login and the record after.
pub mod Delay
pub mod Table
pub mod Guard
pub mod Rows
pub mod Spent
pub mod Budget
pub mod Verdict
