-- ===== src/Newt.antt =====
-- newt.c and include/newt.h: the tasks that bring the site online.
pub mod Supervisor
pub mod Order
pub mod WgConfig
pub mod Reconnect
pub mod Reports
pub mod Twice
pub mod Public
pub mod Shutdown
pub mod Startup
pub mod Tunnel
pub mod Reactions
pub mod Live
pub mod Rejoin
pub mod Moves
pub mod Delivery
pub mod Arrival
pub mod Ends
pub mod Overrun
pub mod Sound
pub mod Tests
pub mod TaskTests
pub mod LiveTests
pub mod ArrivalTests
