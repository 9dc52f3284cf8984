-- ===== src/Pat.antt =====
-- Personal access tokens: internal/store/pat.go and internal/store/access_token_management.go.
pub mod Scopes
pub mod Plaintext
pub mod Store
pub mod Lifecycle
pub mod Introspect
pub mod Events
pub mod ScopeLaws
pub mod Quota
pub mod Revocation
pub mod Final
pub mod Issue
