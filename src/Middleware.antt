-- ===== src/Middleware.antt =====
-- middleware/: what runs before or round an endpoint.
pub mod Auth
pub mod Access
pub mod Refusal
pub mod Holder
pub mod Endpoint
pub mod Metrics
