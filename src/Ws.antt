-- ===== src/Ws.antt =====
-- newt_ws.c and include/newt_ws.h: the websocket control channel.
pub mod Envelope
pub mod Url
pub mod State
pub mod Frame
pub mod Bounds
pub mod Assembly
pub mod Backoff
pub mod Worker
pub mod Delivery
pub mod Mailbox
pub mod Pump
pub mod Orderly
pub mod Drained
pub mod Life
pub mod Lifecycle
pub mod Tests
pub mod PumpTests
