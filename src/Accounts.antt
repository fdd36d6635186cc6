-- ===== src/Accounts.antt =====
-- Accounts: the user and invite repositories over the graph database, and the HTTP routes of
-- api/auth_api.py and api/sso_api.py that provision, log in and enrol.
pub mod Graph
pub mod Crypto
pub mod Users
pub mod Totp
pub mod Invites
pub mod App
pub mod Members
pub mod Login
pub mod Sso
pub mod Requests
