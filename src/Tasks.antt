-- ===== src/Tasks.antt =====
-- The abstract behaviour of the table `tasks` under the requests of one user: which changes the
-- endpoints of api/v1/requests.py may make, whatever happens on the way.
pub mod Map
pub mod Unique
pub mod Change
pub mod Invariant
pub mod Creation
pub mod Batch
pub mod Storing
pub mod Publishing
