-- ===== src/Filter.antt =====
-- filter.c and filter.h: the section filters. `PidList` has cMcliPidList, `Section` cMcliFilter, `Demux`
-- the cutting of a TS packet, and `Filters` cMcliFilters.
pub mod PidList
pub mod Section
pub mod Demux
pub mod Filters
mod Tests
