-- ===== src/Client.antt =====
-- The services behind the user interface: ui/services and ui/state/models.py.
pub mod EventPump
pub mod Roster
pub mod Chat
pub mod Delivery
pub mod Contacts
pub mod Files
pub mod Cards
pub mod Incoming
pub mod Received
