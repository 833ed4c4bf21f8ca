-- ===== src/Domain.antt =====
-- domain/: the operations of the application, one module for each file.
pub mod Tasks
pub mod Auth
pub mod Quiet
pub mod Cancel
pub mod Readable
pub mod Create
pub mod Update
pub mod Login
