-- ===== src/Repository.antt =====
-- repository/: the queries of the application.
pub mod Rows
pub mod Creation
pub mod Listing
pub mod Task
pub mod Auth
pub mod Identity
