-- ===== src/Lib.antt =====
-- A model of metafusion-auth, the account service: its store of accounts, groups, clients and
-- tokens, the guard of its login and its limit of requests.
--
-- Parts and files:
--   Prelude    shared library names, tests on numbers, lists, the result type with the error codes
--   Text       the functions of Go's `strings` that the code uses, and the two regular expressions'
--              matcher (Text/Regex, by derivatives)
--   Access     internal/store/access.go: permission codes, the expansion of groups, `Can`; the
--              projection `User` of internal/store/store.go
--   Database   the tables of the schema in internal/store/store.go as lists of rows, and the queries
--              that several parts share
--   Pat        internal/store/pat.go and internal/store/access_token_management.go: Scopes and
--              Plaintext (checking scopes, making the secret), Store (issue), Lifecycle (list,
--              update, revoke, delete), Introspect; Events joins them to histories
--   Login      internal/store/login_failures.go (Table) and internal/handler/login_guard.go (Delay,
--              Guard)
--   Accounts   internal/store/groups.go (Groups) and the bans of internal/store/identity.go (Bans)
--   Oauth      internal/store/oauth.go: Scopes, Clients (the checks, and in Clients/Manage the
--              writes of client rows), Codes (issue of a code, PKCE), Exchange (a code for a token,
--              userinfo), Revoke; Grants joins the operations on codes to histories
--   Developer  internal/store/developer.go, over Oauth/Clients; Histories joins its operations with
--              those of the administration
--   Token      internal/store/token.go: the issuer of signed tokens
--   Sessions   who a token stands for: `Authenticate` of internal/store/store.go, `User` and `Logout`
--              of internal/store/identity.go; Passwords has its `ChangePassword`, `LogoutAll` and
--              `ResetUserPassword`, Login its `Login` and `Refresh`, Accounts its `CreateUser` and the
--              `Register` of internal/store/groups.go
--   RateLimit  the limit of requests, `rateLimiter` of internal/handler/handler.go
--   Invites    the invitation codes of internal/store/groups.go
--   Examples   concrete runs
-- The identity of a token is found through Token, the session rows and the ban's memory in Accounts.
-- The introspection of an access token reads the account's groups through Database and Access; a ban
-- deletes the rows of sessions, codes and tokens and revokes their ids at the issuer of Token; an
-- exchange of a code reads the rows of clients and accounts and signs at the issuer of Token; the
-- login guard stands before the login and shares only its own table with it.
--
-- How code and model correspond: an operation is a function with the source's name in snake case; it
-- takes the state and the time and gives the new state or the source's error. A failing operation
-- leaves the state as it was, as the transaction is rolled back. A Go map that only remembers what
-- has been appended is read off the appended list.
--
-- Choices and bounds:
--   * A time is a natural number of nanoseconds, of one clock: the server's and the database's are
--     taken to agree. Claims hold seconds. An expiry of 0 is none, and stands for negative ones too.
--   * The delay of the login guard is computed on 64-bit integers with the wrap-around written out.
--   * The base-62 text of a secret is on fuel for 64 digits; 32 bytes need at most 43.
--   * SHA-256, bcrypt, the uuid syntax, `strings.ToLower` and `strings.ToUpper` are parameters, of
--     which nothing is assumed. The parts of a signed token are read and written by a parameter
--     (`Codec`): base64, JSON, RSA.
--   * Operations happen one after another. An attempt at the login guard, its delay included, is one
--     step, and so are the guard query and the write of a ban. The exchange of a code is one step,
--     though its statements are not one transaction: it stays marked when what follows fails. A
--     request at the limiter is one step too, though it takes two locks.
--   * Ids are compared as texts. Random ids, codes, secrets and the rate policy are arguments;
--     `url.Parse` is a parameter.
--   * Failures of the database are modelled in the login guard only.
--   * Texts are ordered by their characters.
--
-- Not modelled: the memory-only variant of the login guard that tests use, a client that leaves
-- during the delay, a login body that cannot be read (it passes the guard), the rounding of
-- `Retry-After`; display names of groups; the loading of the signing key; the lists of grants and
-- of the OAuth audit; the instance settings with the memory of the rate policy; the walk over
-- forwarded addresses; the audit log; profiles, seed rows and the check of the schema; the
-- configuration; the HTTP handlers and pages around the store; the web front ends.
pub mod Prelude
pub mod Text
pub mod Access
pub mod Database
pub mod Pat
pub mod Login
pub mod Accounts
pub mod Oauth
pub mod Token
pub mod Sessions
pub mod Invites
pub mod Developer
pub mod RateLimit
pub mod Examples
