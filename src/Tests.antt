-- ===== src/Tests.antt =====
-- Runs of the definitions on small inputs, and the theorems at inputs that meet their conditions.
mod Tables
mod Governors
mod Configs
mod Voltages
mod Manager
mod Screens
mod Kips
mod Services
mod Loaders
mod Hardware
mod CvbTables
