-- ===== src/Oauth.antt =====
-- Third-party authorisation, internal/store/oauth.go: scopes, clients, and the codes and tokens of a
-- grant.
pub mod Scopes
pub mod Clients
pub mod Codes
pub mod Exchange
pub mod Revoke
pub mod Grants
