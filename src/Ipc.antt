-- ===== src/Ipc.antt =====
-- The service `hoc:clk`: its sessions (Server) and its commands (Service).
pub mod Request
pub mod Server
pub mod Service
