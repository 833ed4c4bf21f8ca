-- ===== src/Api.antt =====
-- api/v1/: the endpoints, one module for each router.
pub mod Sessions
pub mod Docs
pub mod Websocket
pub mod Requests
pub mod Auth
pub mod Endpoint
pub mod Failure
pub mod Delete
pub mod Changes
pub mod Router
pub mod Metrics
pub mod Service
pub mod Answers
pub mod Isolation
pub mod Create
pub mod Logout
pub mod Admission
pub mod Profile
pub mod Lockout
pub mod Register
pub mod Update
pub mod Listing
pub mod Batch
pub mod Refresh
pub mod Race
pub mod LoginRace
