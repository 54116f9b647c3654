-- ===== src/Tests.antt =====
-- Concrete states of the bridge, and the theorems applied to them.
pub mod Data
pub mod Queue
pub mod Enqueue
pub mod Invites
pub mod Delivery
pub mod Webhooks
pub mod Setup
pub mod Migrations
pub mod Terminal
pub mod Run
pub mod Commands
pub mod Clients
