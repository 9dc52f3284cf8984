-- ===== src/Examples.antt =====
-- Concrete accounts, groups, tables and tokens, on which the library's theorems are applied.
mod Access
mod Tokens
mod Accounts
mod Login
mod Sessions
mod Invites
mod Oauth
mod Clients
mod SignIn
mod RateLimit
