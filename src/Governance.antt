-- ===== src/Governance.antt =====
-- backend/governance: roles and permissions, signed tokens, the exchange with Google, and the second
-- login factor.
pub mod Http
pub mod Rbac
pub mod Token
pub mod Oidc
pub mod Mfa
