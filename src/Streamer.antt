-- ===== src/Streamer.antt =====
-- rpc-streamer/src/streamer.ts and its two variants: the loops that bring ledgers or events from an
-- archive and a live RPC server to a handler.
pub mod Effect
pub mod Config
pub mod Modes
pub mod Ledgers
pub mod Events
pub mod Safety
pub mod Delivery
mod Tests
