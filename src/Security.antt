-- ===== src/Security.antt =====
-- src/hokora/security: replay detection, rate limits, invites, permissions and bans.
pub mod Verification
pub mod RateLimit
pub mod Invites
pub mod Permissions
pub mod Roles
pub mod Ban
pub mod Sealed
pub mod SealedInvariant
