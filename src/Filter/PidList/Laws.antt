-- ===== src/Filter/PidList/Laws.antt =====
-- cMcliPidList of filter.c as a map from PIDs to table ids.
use vdr_plugin_mcli.Prelude.{
  ℕ, ◌≡◌, refl, Option, none, some, List, [], ◌∷◌, arith, ◌==◌, if◌then◌else◌,
}
use vdr_plugin_mcli.Filter.PidList.{McliPid, no_tid, get_tid_from_pid, put_tid, drop_pid, set_pid}

-- A PID stands in the list once.
abbrev pub IsMap : List McliPid → Type 0
IsMap [] = Unit {0}
IsMap (p ∷ ps) = (get_tid_from_pid ps p.pid ≡ none) × IsMap ps

-- What a lookup gives after SetPid, in terms of the lookup before it: the id -1 removes the PID, the id
-- 0xffff adds it but leaves an id that is known, any other id is set.
abbrev pub updated : Option ℕ → Option ℕ → Option ℕ
updated none old = none
updated (some tid) none = some tid
updated (some tid) (some old) = if tid == no_tid then some old else some tid

get-put_tid :
    (ps : List McliPid) (pid tid q : ℕ)
    → get_tid_from_pid (put_tid ps pid tid) q
      ≡ (if pid == q then updated (some tid) (get_tid_from_pid ps q) else get_tid_from_pid ps q)
unfolding get_tid_from_pid put_tid
get-put_tid [] pid tid q = ground arith
get-put_tid (p ∷ ps) pid tid q = ground (arith, get-put_tid ps pid tid q)

get-drop_pid :
    (ps : List McliPid) (pid q : ℕ)
    → IsMap ps
    → get_tid_from_pid (drop_pid ps pid) q ≡ (if pid == q then none else get_tid_from_pid ps q)
unfolding get_tid_from_pid drop_pid
get-drop_pid [] pid q m = ground arith
get-drop_pid (p ∷ ps) pid q m = ground (arith, get-drop_pid ps pid q m.1)

-- In a list of distinct PIDs, SetPid changes what the list knows of its PID, as stated by
-- `updated`, and of no other PID.
pub get-set_pid :
    (ps : List McliPid) (pid q : ℕ) (tid : Option ℕ)
    → IsMap ps
    → get_tid_from_pid (set_pid ps pid tid) q
      ≡ (if pid == q then updated tid (get_tid_from_pid ps q) else get_tid_from_pid ps q)
unfolding set_pid
get-set_pid ps pid q (some tid) m = get-put_tid ps pid tid q
get-set_pid ps pid q none m = get-drop_pid ps pid q m

put_tid-IsMap : (ps : List McliPid) (pid tid : ℕ) → IsMap ps → IsMap (put_tid ps pid tid)
unfolding put_tid get_tid_from_pid
put_tid-IsMap [] pid tid m = (refl, tt)
put_tid-IsMap (p ∷ ps) pid tid m =
    ground (arith, put_tid-IsMap ps pid tid m.1, get-put_tid ps pid tid p.pid)

drop_pid-IsMap : (ps : List McliPid) (pid : ℕ) → IsMap ps → IsMap (drop_pid ps pid)
unfolding drop_pid
drop_pid-IsMap [] pid m = tt
drop_pid-IsMap (p ∷ ps) pid m =
    ground (arith, drop_pid-IsMap ps pid m.1, get-drop_pid ps pid p.pid m.1)

-- SetPid keeps the PIDs distinct.
pub set_pid-IsMap :
    (ps : List McliPid) (pid : ℕ) (tid : Option ℕ) → IsMap ps → IsMap (set_pid ps pid tid)
unfolding set_pid
set_pid-IsMap ps pid (some tid) m = put_tid-IsMap ps pid tid m
set_pid-IsMap ps pid none m = drop_pid-IsMap ps pid m
