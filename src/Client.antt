-- ===== src/Client.antt =====
-- src/client: the client role.
pub mod Job
pub mod Subscribers
pub mod Events
pub mod Incoming
pub mod Actor
pub mod Server
pub mod Ketama
pub mod Pool
pub mod Submit
pub mod Connect
mod Tests
