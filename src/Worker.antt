-- ===== src/Worker.antt =====
-- src/worker: the worker role.
pub mod Job
pub mod Grab
pub mod Registry
pub mod Connection
pub mod Builder
mod Tests
