-- ===== src/Proto.antt =====
-- newt_proto.c and include/newt_proto.h: the message protocol over the control channel.
pub mod Endpoint
pub mod ChainId
pub mod State
pub mod Connect
pub mod ExitNodes
pub mod Message
pub mod Send
pub mod Exchange
pub mod Tests
