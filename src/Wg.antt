-- ===== src/Wg.antt =====
-- newt_wg.c and include/newt_wg.h: keys, addresses and the life of the WireGuard interface.
pub mod Address
pub mod Keys
pub mod KeyPair
pub mod State
pub mod Life
pub mod Connect
pub mod Poller
pub mod Quiet
pub mod Configure
pub mod Tests
