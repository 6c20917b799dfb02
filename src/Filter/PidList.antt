-- ===== src/Filter/PidList.antt =====
-- cMcliPid and cMcliPidList of filter.c: which table a PID carries at the moment. A negative table id
-- is `none`. The list of VDR (cList) is a list, to whose end Add appends.
pub mod Laws
use vdr_plugin_mcli.Prelude.{ℕ, Bool, Option, none, some, List, [], ◌∷◌, ◌==◌, if◌then◌else◌}

-- cMcliPid
pub record McliPid : Type 0 where
  pub pid : ℕ
  pub tid : ℕ

-- The table id of a PID whose section has not begun.
abbrev pub no_tid : ℕ
no_tid = 0xffff

-- GetTidFromPid
unfoldable pub get_tid_from_pid : List McliPid → ℕ → Option ℕ
get_tid_from_pid [] pid = none
get_tid_from_pid (p ∷ ps) pid = if p.pid == pid then some p.tid else get_tid_from_pid ps pid

-- SetPid with Tid >= 0: the first entry of the PID changes, or a new one is added.
pub put_tid : List McliPid → ℕ → ℕ → List McliPid
put_tid [] pid tid = record { pid = pid; tid = tid } ∷ []
put_tid (p ∷ ps) pid tid =
    if p.pid == pid
    then (if tid == no_tid then p else record p { tid = tid }) ∷ ps
    else p ∷ put_tid ps pid tid

-- SetPid with Tid < 0: the first entry of the PID goes.
pub drop_pid : List McliPid → ℕ → List McliPid
drop_pid [] pid = []
drop_pid (p ∷ ps) pid = if p.pid == pid then ps else p ∷ drop_pid ps pid

-- SetPid
pub set_pid : List McliPid → ℕ → Option ℕ → List McliPid
set_pid ps pid (some tid) = put_tid ps pid tid
set_pid ps pid none = drop_pid ps pid
