-- ===== src/Config.antt =====
-- common/config_loader.cpp and config_loader.h: Config/Settings.antt has the configurations,
-- Config/Loader.antt what reads them.
pub mod Settings
pub mod Loader
pub mod Sharing
mod Tests
