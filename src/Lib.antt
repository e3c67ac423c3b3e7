-- ===== src/Lib.antt =====
-- A model of ryazha-clk, the clock service of this repository (Source/ryazha-clk/sysmodule), with
-- theorems about it.
--
-- The service keeps a configuration (settings, and clocks for each title and profile) that it reads
-- from config.ini. In every tick its clock manager looks at the title, the profile, the sensors and
-- the configuration, and sets the rates of the CPU, the GPU, the memory and the display. Beside it a
-- thread, the governor, sets the CPU and the GPU by their load and the display by the frame rate,
-- where it is turned on. When the memory changes its rate, the table of GPU voltages in the memory of
-- the system module PCV is rewritten. Other programs send it commands (Ipc), with which they read and
-- write the configuration. Some settings are not for the service: it copies them (Kip) into a table in
-- the file hoc.kip, which is the loader of Atmosphere that this repository changes. When that loader
-- loads the system modules PCV and PTM, it patches their code and their tables by this table (Loader),
-- so that higher clocks and other voltages are possible.
--
-- Which file models what:
--   Base                  numbers, Boolean tests, lists, loops and signed numbers that the others share
--   Hoc                   the enumerations of common/include/hocclk/board.h and the packed governor state
--   Config/Key, Values    the settings: HocClkConfigValue, hocclkDefaultConfigValue,
--                         hocclkValidConfigValue (common/include/hocclk/config.h)
--   Config/Store          the globals of sysmodule/src/file/config.cpp: BrowseIniFunc, Close, Load,
--                         Initialize, Refresh, GetAutoClockHz, GetProfiles, the overrides
--   Config/Write          SetProfiles, SetConfigValues, SetConfigValue, ResetConfigValue of that file;
--                         below it what they keep (Valid), what Load reads back (Reload), and the clocks
--                         of the titles (Titles)
--   FreqTable             GetNearestHz of sysmodule/src/mgr/clock_manager.cpp and TableIndexForHz of
--                         mgr/governor.cpp; Caps has IsAssignableHz and GetMaxAllowedHz, Refresh has
--                         RefreshFreqTableRow
--   Governor              GovernorThread of mgr/governor.cpp, a round at a time: CPU and GPU here, the
--                         display in Vrr, HandleGovernor in Flags
--   Dvfs                  GetMinimumGpuVmin and CalculateTbreak of sysmodule/src/board/board_volt.cpp;
--                         Hijack has PcvHijackGpuVolts and the voltage of ApplyGpuDvfs, Dfll has
--                         SetDfllTunings
--   Clocks                SetClocks, HandleFreqReset, DVFSReset and ApplyGpuDvfs of mgr/clock_manager.cpp;
--                         Safety has HandleSafetyFeatures and ConfigIntervalTimeout, Tick has
--                         RefreshContext and Tick, Misc has HandleMiscFeatures
--   Board                 SetHz, GetHz and GetProfile of sysmodule/src/board/board_freq.cpp and
--                         board_profile.cpp
--   Display               sysmodule/src/display/display_refresh_rate.cpp: the registers of the built-in
--                         display; Docked has the choice of a rate for an external display, Retro the
--                         timings of a replaced built-in display
--   Checksum              sysmodule/src/util/crc32.cpp: crc32 and checksum_file
--   Kip                   the table of settings in hoc.kip (sysmodule/src/file/kip.hpp): the search for it,
--                         cust_read_table and cust_write_table; Key, Field and Copied say which setting
--                         goes to which word; Data has SetKipData, GetKipData and MigrateKipData
--                         (sysmodule/src/file/kip.cpp)
--   Gm20b                 setClock of sysmodule/src/soc/gm20b.cpp: the PLL of the GPU slides to a divider
--   Ipc                   Request and Server are sysmodule/src/ipc/ipc_server.c: parsing a request, the
--                         list of sessions, ipcServerProcess; Service has ServiceHandlerFunc and its
--                         handlers (ipc_service.cpp)
--   Loader                Source/Atmosphere/stratosphere/loader/source/oc: Scan has PatcherEntry
--                         (oc_common.hpp) and the loops of Patch, Custom the CustomizeTable, Safety
--                         SafetyCheck (pcv/pcv.cpp), Asm the encodings of instructions (pcv/pcv_asm.hpp);
--                         Cpu, Gpu, Regulators, Mtc and Dvb are patches of pcv/pcv_mariko.cpp and
--                         pcv/pcv.cpp: CapCpuClock to CpuVoltDfll, GpuVoltDVFS to MemFreqPllmLimit,
--                         MemVoltHandler, EmcVddqVolt and SocVoltLimit, MtcGenerateFreqTables, and
--                         MemFreqDvbTable with MemFreqMax; Cvb is GpuFreqCvbTable of pcv/pcv.hpp, for
--                         both SoCs; Soc has SocVoltAsm, Ptm the patch of the module PTM (ptm/ptm.cpp)
--   Tests                 runs on small inputs, and each theorem at an input that meets its conditions
-- (Other paths are below Source/ryazha-clk.)
--
-- How the state is modelled: globals and local variables are records that the functions take and
-- return. A C++ map is a function to an option. The calls of the board are recorded in a list, the
-- newest first, and what the board answers is a function of that list. minIni is the interface
-- Config.Store.Ini, with the law Config.Write.Reload.IsIni. Unsigned numbers are natural numbers with
-- the wrap at 8, 32 or 64 bits written out where the code can reach it. A read past the end of a table
-- is `none`. A file is the list of its bytes. What the kernel answers to the server is part of each
-- call, and the server's handler is a function of the request and a state. The memory that the loader
-- patches is a function from the number of a 32-bit word to its value; a patch takes a pointer and the
-- memory, and returns a result and the memory.
--
-- Bounds: the loop over the grid of GPU rates runs on fuel, 112 rounds, which is more than the
-- multiples of its step in 32 bits. The search in hoc.kip runs on one round more than the file has
-- bytes, and each round but the last goes on by a byte at least; reading a file for its checksum has as
-- many rounds. The loop over the memory clocks runs on 40 rounds, and after 29 its clock is above the
-- highest limit that SafetyCheck lets pass. Every other loop is structural recursion.
--
-- Not modelled: locks, logging, sleeping and the starting of threads; the values that are only
-- reported (temperatures, voltages, loads, frames); the splitting of a key of config.ini into profile
-- and module; the hardware drivers and the docked display timings; in the loader the memory timings,
-- which are a list of register formulas, the patches that move code (MemMtcTableAsm), the CPU's
-- voltage table, and the patches for Erista; the overlay, and the other programs of the repository.
pub mod Base
pub mod Board
pub mod Checksum
pub mod Clocks
pub mod Config
pub mod Display
pub mod Dvfs
pub mod FreqTable
pub mod Gm20b
pub mod Governor
pub mod Hoc
pub mod Ipc
pub mod Kip
pub mod Loader
pub mod Tests
