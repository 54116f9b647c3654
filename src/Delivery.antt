-- ===== src/Delivery.antt =====
-- internal/delivery: the worker that sends the queued messages, its retry delays and its circuit
-- breaker.
pub mod Circuit
pub mod Render
pub mod Outside
pub mod Send
pub mod Worker
pub mod Run
pub mod Clients
pub mod Backoff
