-- ===== src/Auth.antt =====
-- newt_auth.c and include/newt_auth.h: fetching a token and registering with a provisioning key.
pub mod Response
pub mod Growth
pub mod Complete
pub mod Request
pub mod Token
pub mod Wiping
pub mod Fetch
pub mod Tests
