-- ===== src/Ping.antt =====
-- newt_ping.c and include/newt_ping.h: the ping that keeps the tunnel awake.
pub mod Session
pub mod Sessions
pub mod Tests
