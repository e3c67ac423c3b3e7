-- ===== src/Loader.antt =====
-- The patches that the loader of Atmosphere applies to the modules PCV and PTM
-- (Source/Atmosphere/stratosphere/loader/source/oc). Scan has what they have in common, Custom the table
-- of settings, Safety its check, Asm the instructions; Cpu, Gpu, Cvb, Regulators, Mtc, Dvb and Soc are
-- patches of PCV, Ptm is the one of PTM.
-- Memory is a function from the number of a 32-bit word to its value; a pointer is such a number, and
-- the mapped module does not begin at the first words of the address space.
pub mod Scan
pub mod Custom
pub mod Asm
pub mod Safety
pub mod Cpu
pub mod Gpu
pub mod Cvb
pub mod Regulators
pub mod Mtc
pub mod Dvb
pub mod Ptm
pub mod Soc
