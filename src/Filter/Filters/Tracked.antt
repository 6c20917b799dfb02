-- ===== src/Filter/Filters/Tracked.antt =====
-- cMcliFilters of filter.c as a machine: what opening and closing filters and the two threads that
-- fill and empty the packet buffer keep true.
use vdr_plugin_mcli.Prelude.{
  ℕ, ◌≤◌, ◌≡◌, ◌≢◌, subst, ◌⊎◌, inl, inr, Bool, true, false, Bool-cases, Option, none, some,
  Option-cases, List, [], ◌∷◌, arith,
}
use native.Mathlib.Decide.{ℕ_discrete}
use vdr_plugin_mcli.PacketBuffer.{Round, get_start, get_end}
use vdr_plugin_mcli.PacketBuffer.Bytes.{bytes_at}
use vdr_plugin_mcli.Filter.Section.Keeps.{create-pid}
use vdr_plugin_mcli.Filter.PidList.{McliPid, no_tid, get_tid_from_pid, set_pid}
use vdr_plugin_mcli.Filter.PidList.Laws.{IsMap, get-set_pid, set_pid-IsMap}
use vdr_plugin_mcli.Filter.Section as Section
use vdr_plugin_mcli.Filter.Section.{McliFilter, WriteResult, put_section}
use vdr_plugin_mcli.Filter.Demux.{Chunk, packet_pid, packet_chunks}
use vdr_plugin_mcli.Filter.Filters.{
  McliFilters, Sent, Sockets, want_pid, uses, get_pid, garbage_collect, forget_filter, close_filter,
  add_filter, open_filter, put_ts, process_chunk, process_chunks, action,
}
use vdr_plugin_mcli.Filter.Filters.Handles.{
  want_pid-uses, forget_filter-kept, forget_filter-gone, uses-del_filter-le, get_pid-uses,
  uses-garbage_collect,
}
use vdr_plugin_mcli.Filter.Filters.Keeps.{uses-append, put_ts-keeps, uses-deliver}

-- A PID has an entry in the list.
abbrev pub Known : List McliPid → ℕ → Type 0
Known pl p = get_tid_from_pid pl p ≢ none

-- The PIDs are distinct, and each that a filter wants has an entry.
pub Tracked : McliFilters → Type 0
Tracked m = IsMap m.pl × ((p : ℕ) → 1 ≤ uses m.filters p → Known m.pl p)

-- What the machine does: VDR opens and closes filters, a device puts TS packets, the thread runs.
pub data Step (ts_size clocks_per_sec : ℕ) : McliFilters → McliFilters → Type 0 where
  open_step :
      (sockets : Sockets) (broken : Bool) (handle : Option ℕ) (pid tid mask : ℕ) (m : McliFilters)
      → Step ts_size clocks_per_sec m
          (open_filter ts_size clocks_per_sec sockets broken handle pid tid mask m).1
  close_step :
      (sockets : Sockets) (broken : Bool) (handle : Option ℕ) (m : McliFilters)
      → Step ts_size clocks_per_sec m (close_filter sockets broken handle m).1
  put_step :
      (rounds : ℕ → List Round) (mem : ℕ → ℕ) (len : ℕ) (m m' : McliFilters)
      → put_ts ts_size rounds mem len m ≡ some m'
      → Step ts_size clocks_per_sec m m'
  action_step :
      (sockets : Sockets) (rounds : List Round) (starttime : ℕ) (out : List Sent)
      (m m' : McliFilters)
      → action ts_size sockets rounds starttime m ≡ some (out, m')
      → Step ts_size clocks_per_sec m m'

-- Any number of steps.
pub data Steps (ts_size clocks_per_sec : ℕ) : McliFilters → McliFilters → Type 0 where
  stay : (m : McliFilters) → Steps ts_size clocks_per_sec m m
  step :
      (m m' m'' : McliFilters)
      → Step ts_size clocks_per_sec m m'
      → Steps ts_size clocks_per_sec m' m''
      → Steps ts_size clocks_per_sec m m''

-- Fewer uses and at least the known PIDs keep the filters tracked.
Tracked-mono :
    (m m' : McliFilters)
    → IsMap m'.pl
    → ((p : ℕ) → uses m'.filters p ≤ uses m.filters p)
    → ((p : ℕ) → Known m.pl p → Known m'.pl p)
    → Tracked m
    → Tracked m'
unfolding Tracked
Tracked-mono m m' is_map fewer more t = (is_map, λ p h. more p (t.1 p (omega (arith, fewer p))))

some_not_none : (t : ℕ) → some t ≢ none
some_not_none t e = grind (arith, e)

set_pid-Known :
    (pl : List McliPid) (pid tid p : ℕ)
    → IsMap pl
    → Known pl p ⊎ (p ≡ pid)
    → Known (set_pid pl pid (some tid)) p
set_pid-Known pl pid tid p m h =
    let lookup = get-set_pid pl pid p (some tid) m in
    elim (Option-cases (get_tid_from_pid pl p)) [
      | inl e ↦ ground (arith, lookup, e, h)
      | inr (t, e) ↦ ground (arith, lookup, e)
    ]

garbage_collect-Tracked :
    (sockets : Sockets) (broken : Bool) (m : McliFilters)
    → Tracked m
    → Tracked (record m { filters = garbage_collect sockets broken m.filters })
unfolding Tracked
garbage_collect-Tracked sockets broken m t =
    Tracked-mono m (record m { filters = garbage_collect sockets broken m.filters }) t.0
      (uses-garbage_collect sockets broken m.filters) (λ p h. h) t

forget_filter-Tracked :
    (handle : Option ℕ) (m : McliFilters) → Tracked m → Tracked (forget_filter handle m).1
unfolding Tracked
forget_filter-Tracked handle m t = elim (Option-cases (get_pid m.filters handle)) [
  | inl e ↦
      rw (forget_filter-kept handle m e)
        (t.0, λ p h. t.1 p (omega (arith, uses-del_filter-le m.filters handle p)))
  | inr (q, e) ↦ rw (forget_filter-gone handle m q e) (
    set_pid-IsMap m.pl q none t.0,
    λ p h. grind (
      arith,
      uses-del_filter-le m.filters handle p,
      get_pid-uses m.filters handle q e,
      get-set_pid m.pl q p none t.0,
      t.1 p,
    ),
  )
]

add_filter-Tracked :
    (ts_size clocks_per_sec : ℕ) (handle : Option ℕ) (pid tid mask : ℕ) (m : McliFilters)
    → Tracked m
    → Tracked (add_filter ts_size clocks_per_sec handle pid tid mask m).1
unfolding Tracked add_filter uses
add_filter-Tracked ts_size clocks_per_sec handle pid tid mask m t =
    let wanted = want_pid-uses m.filters pid in
    let count = uses-append m.filters (Section.create handle pid tid mask ∷ []) in
    elim (Bool-cases (want_pid m.filters pid)) [
      | inl w ↦ rw w (
        t.0,
        λ p h. elim (ℕ_discrete p pid) [
          | yes same ↦ t.1 p (ground (arith, w, wanted, same))
          | no other ↦ t.1 p (ground (arith, count p, other, create-pid handle pid tid mask))
        ],
      )
      | inr w ↦ rw w (
        set_pid-IsMap m.pl pid (some no_tid) t.0,
        λ p h. elim (ℕ_discrete p pid) [
          | yes same ↦ set_pid-Known m.pl pid no_tid p t.0 (inr same)
          | no other ↦
              set_pid-Known m.pl pid no_tid p t.0
                (inl (t.1 p (ground (arith, count p, other, create-pid handle pid tid mask))))
        ],
      )
    ]

put_ts-Tracked :
    (ts_size : ℕ) (rounds : ℕ → List Round) (mem : ℕ → ℕ) (len : ℕ) (m m' : McliFilters)
    → put_ts ts_size rounds mem len m ≡ some m'
    → Tracked m
    → Tracked m'
unfolding Tracked
put_ts-Tracked ts_size rounds mem len m m' e t =
    let (same_pl, same_filters) = put_ts-keeps ts_size rounds mem len m m' e in
    rw (same_pl, same_filters) t

process_chunk-Tracked :
    (ts_size : ℕ) (sockets : Sockets) (pid : ℕ) (mem : ℕ → ℕ) (start len : ℕ) (pusi : Bool)
    → (m : McliFilters) → Tracked m
    → Tracked
        (process_chunk ts_size sockets pid mem
          (record { start = start; len = len; pusi = pusi })
          m).1
unfolding Tracked process_chunk
process_chunk-Tracked ts_size sockets pid mem start len true m t =
    let fewer =
      uses-deliver ts_size sockets pid (mem start) (bytes_at mem start len) true m.filters in
    (
      set_pid-IsMap m.pl pid (some (mem start)) t.0,
      λ p h. set_pid-Known m.pl pid (mem start) p t.0 (inl (t.1 p (omega (arith, h, fewer p)))),
    )
process_chunk-Tracked ts_size sockets pid mem start len false m t =
    elim (Option-cases (get_tid_from_pid m.pl pid)) [
      | inl e ↦ rw (process_chunk, e) t
      | inr (tid, e) ↦
          let fewer =
            uses-deliver ts_size sockets pid tid (bytes_at mem start len) false m.filters in
          rw (process_chunk, e) (t.0, λ p h. t.1 p (omega (arith, h, fewer p)))
    ]

process_chunks-Tracked :
    (ts_size : ℕ) (sockets : Sockets) (pid : ℕ) (mem : ℕ → ℕ) (cs : List Chunk) (m : McliFilters)
    → Tracked m
    → Tracked (process_chunks ts_size sockets pid mem cs m).1
unfolding process_chunks
process_chunks-Tracked ts_size sockets pid mem [] m t = t
process_chunks-Tracked ts_size sockets pid mem (c ∷ cs) m t =
    process_chunks-Tracked ts_size sockets pid mem cs (process_chunk ts_size sockets pid mem c m).1
      (process_chunk-Tracked ts_size sockets pid mem c.start c.len c.pusi m t)

-- The state that a round leaves is tracked, if it returns.
abbrev LeavesTracked : Option (List Sent × McliFilters) → Type 0
LeavesTracked none = Unit {0}
LeavesTracked (some (out, m)) = Tracked m

action-LeavesTracked :
    (ts_size : ℕ) (sockets : Sockets) (rounds : List Round) (starttime : ℕ) (m : McliFilters)
    → Tracked m
    → LeavesTracked (action ts_size sockets rounds starttime m)
unfolding Tracked action
action-LeavesTracked ts_size sockets rounds starttime m t = elim (Option-cases m.pb) [
  | inl e ↦ rw (action, e) tt
  | inr (b, e) ↦ elim (Option-cases (get_start rounds starttime (get_end b))) [
    | inl k ↦ rw (action, e, k) tt
    | inr ((none, b'), k) ↦ rw (action, e, k) t
    | inr ((some p, b'), k) ↦
        rw (action, e, k)
          (process_chunks-Tracked ts_size sockets (packet_pid b'.data_buffer p.offset)
            b'.data_buffer (packet_chunks b'.data_buffer p.offset) (record m { pb = some b' }) t)
  ]
]

Step-Tracked :
    (ts_size clocks_per_sec : ℕ) (m m' : McliFilters)
    → Step ts_size clocks_per_sec m m'
    → Tracked m
    → Tracked m'
unfolding open_filter close_filter
Step-Tracked ts_size clocks_per_sec _ _ (open_step sockets broken handle pid tid mask m) t =
    add_filter-Tracked ts_size clocks_per_sec handle pid tid mask
      (record m { filters = garbage_collect sockets broken m.filters })
      (garbage_collect-Tracked sockets broken m t)
Step-Tracked ts_size clocks_per_sec _ _ (close_step sockets broken handle m) t =
    forget_filter-Tracked handle (record m { filters = garbage_collect sockets broken m.filters })
      (garbage_collect-Tracked sockets broken m t)
Step-Tracked ts_size clocks_per_sec _ _ (put_step rounds mem len m m' e) t =
    put_ts-Tracked ts_size rounds mem len m m' e t
Step-Tracked ts_size clocks_per_sec _ _ (action_step sockets rounds starttime out m m' e) t =
    subst LeavesTracked e (action-LeavesTracked ts_size sockets rounds starttime m t)

-- After any number of opened and closed filters, puts and rounds of the thread, the PIDs of the list are
-- distinct, and each PID that a filter wants has an entry, if that was so at the beginning.
pub Steps-Tracked :
    (ts_size clocks_per_sec : ℕ) (m m' : McliFilters)
    → Steps ts_size clocks_per_sec m m'
    → Tracked m
    → Tracked m'
Steps-Tracked ts_size clocks_per_sec _ _ (stay m) t = t
Steps-Tracked ts_size clocks_per_sec _ _ (step m k m' one more) t =
    Steps-Tracked ts_size clocks_per_sec k m' more (Step-Tracked ts_size clocks_per_sec m k one t)

-- Without filters.
pub empty-Tracked :
    (pl : List McliPid) → IsMap pl → Tracked (record { pb = none; pl = pl; filters = [] })
unfolding Tracked uses
empty-Tracked pl m = (m, λ p h. absurd (omega (arith, h)))
