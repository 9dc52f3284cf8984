-- ===== src/Accounts.antt =====
-- Accounts and their groups: the membership and ban operations of internal/store/groups.go and
-- internal/store/identity.go.
pub mod Groups
pub mod GroupLaws
pub mod Stranded
pub mod Bans
pub mod BanLaws
