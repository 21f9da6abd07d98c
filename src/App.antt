-- ===== src/App.antt =====
-- examples/basic/main/main.c: the example application around the library.
pub mod Wifi
pub mod Background
pub mod Credentials
pub mod Hello
pub mod Boot
pub mod Clock
pub mod Start
pub mod Tests
