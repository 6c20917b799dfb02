-- ===== src/Mcli.antt =====
-- cPluginMcli of mcli.c: the pools of CAMs and tuners that the devices share, the round in which they
-- follow the NetCeivers, the start of the receiver and the limits of the tuner types.
pub mod Cams
pub mod Tuners
pub mod Scan
pub mod Start
pub mod Limits
pub mod Args
pub mod Service
mod Tests
