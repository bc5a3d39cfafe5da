-- ===== src/Render.antt =====
-- internal/render: the validation of the resources, and their translation into a Caddy configuration.
pub mod Resources
pub mod Go
pub mod BodyMax
pub mod Caddy
pub mod Access
pub mod Validate
pub mod Policy
pub mod Config
pub mod VerifyRules
pub mod Samples
