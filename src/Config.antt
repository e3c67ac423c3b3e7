-- ===== src/Config.antt =====
-- The settings and profiles of Source/ryazha-clk/sysmodule/src/file/config.cpp.
pub mod Key
pub mod Values
pub mod Store
pub mod Write
