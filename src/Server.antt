-- ===== src/Server.antt =====
-- src/app_server.py: what the server tells the user interface, and the commands that it takes.
pub mod Events
pub mod Poller
pub mod Commands
pub mod Dispatch
pub mod Broadcast
pub mod Ipc
pub mod Clients
pub mod Files
pub mod Setup
