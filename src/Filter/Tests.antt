-- ===== src/Filter/Tests.antt =====
-- Runs of the section filters (filter.c) on small inputs.
use mathlib.Core.List.{flatten}
use vdr_plugin_mcli.Prelude.{
  ℕ, ◌+◌, ◌-◌, ◌≤◌, ◌≡◌, refl, ◌⊎◌, true, false, none, some, List, [], ◌∷◌, arith, All, ◌==◌,
  if◌then◌else◌,
}
use vdr_plugin_mcli.Filter.PidList.{McliPid, get_tid_from_pid}
use vdr_plugin_mcli.Filter.PidList.Laws.{IsMap}
use vdr_plugin_mcli.Filter.Section.{McliFilter, WriteResult, sent, again}
use vdr_plugin_mcli.Filter.Section.Assembly.{declared, put_chunks}
use vdr_plugin_mcli.Filter.Section.Whole.{section_comes_whole}
use vdr_plugin_mcli.Filter.Demux.{Chunk, packet_pusi, adaptation, packet_chunks}
use vdr_plugin_mcli.Filter.Demux.Tiling.{Tiles, Begins, packet_chunks_tile}
use vdr_plugin_mcli.Filter.Filters.Deliver.{others, Reached, deliver_lem}
use vdr_plugin_mcli.Filter.Filters.{
  deliver, McliFilters, garbage_collect, open_filter, close_filter,
}
use vdr_plugin_mcli.Filter.Filters.Handles.{Closed, close_filter-Closed}
use vdr_plugin_mcli.Filter.Filters.Tracked.{
  Tracked, open_step, close_step, stay, step, Steps-Tracked, empty-Tracked,
}

abbrev pids : List McliPid
pids = record { pid = 17; tid = 66 } ∷ record { pid = 18; tid = 78 } ∷ []

pids-IsMap : IsMap pids
unfolding get_tid_from_pid
pids-IsMap = (refl, (refl, tt))

abbrev eit : McliFilter
eit = record {
  buffer = λ _. 0;
  used = 0;
  closed = false;
  pipe = some 5;
  pid = 18;
  tid = 78;
  mask = 255;
}

-- The socket is full.
abbrev full : ℕ → WriteResult
full n = again

-- A section of 6 bytes in two chunks, for which the socket has no room.
section_comes_whole_example :
    let bytes : List ℕ = 78 ∷ 0 ∷ 3 ∷ 9 ∷ 8 ∷ 7 ∷ [] in
    let (ok, written, f') = put_chunks 188 full (78 ∷ 0 ∷ []) ((3 ∷ 9 ∷ 8 ∷ 7 ∷ []) ∷ []) eit in
    (ok ≡ true) × (written ≡ bytes ∷ []) × (f'.used ≡ 0) × (f'.closed ≡ false)
unfolding flatten declared
section_comes_whole_example =
    section_comes_whole 188 full (78 ∷ 0 ∷ []) (3 ∷ 9 ∷ 8 ∷ 7 ∷ []) [] eit (λ e. cc) (λ e. cc)
      (omega arith, omega arith, refl)

-- A packet without an adaptation field whose payload begins with the pointer 2.
abbrev ts : ℕ → ℕ
ts a = if a == 1 then 64 else if a == 3 then 16 else if a == 4 then 2 else 0

packet_chunks_tile_example :
    let base = 0 + 4 + adaptation ts 0 in
    ((packet_pusi ts 0 ≡ false)
      × (packet_chunks ts 0 ≡ record { start = base; len = 0 + 188 - base; pusi = false } ∷ []))
    ⊎ ((packet_pusi ts 0 ≡ true) × (0 + 188 ≤ base + ts base) × (packet_chunks ts 0 ≡ []))
    ⊎ ((cs : List Chunk) × (packet_pusi ts 0 ≡ true)
        × (packet_chunks ts 0 ≡ record { start = base + 1; len = ts base; pusi = false } ∷ cs)
        × Tiles (base + 1 + ts base) cs (0 + 188)
        × All (Begins ts (0 + 188)) cs)
packet_chunks_tile_example = packet_chunks_tile ts 0 (omega arith)

abbrev one_filter : McliFilters
one_filter = record { pb = none; pl = pids; filters = eit ∷ [] }

close_filter-Closed_example :
    Closed
      (garbage_collect (λ h. sent) false (eit ∷ []))
      pids
      (some 5)
      (close_filter (λ h. sent) false (some 5) one_filter)
close_filter-Closed_example = close_filter-Closed (λ h. sent) false (some 5) one_filter pids-IsMap

abbrev no_filters : McliFilters
no_filters = record { pb = none; pl = pids; filters = [] }

no_filters-Tracked : Tracked no_filters
no_filters-Tracked = empty-Tracked pids pids-IsMap

-- Two filters want PID 18, and the first is closed.
abbrev opened : McliFilters
opened = (open_filter 188 1000000 (λ h. sent) false (some 5) 18 78 255 no_filters).1

abbrev both_open : McliFilters
both_open = (open_filter 188 1000000 (λ h. sent) false (some 6) 18 64 255 opened).1

abbrev one_closed : McliFilters
one_closed = (close_filter (λ h. sent) false (some 5) both_open).1

Steps-Tracked_example : Tracked one_closed
Steps-Tracked_example =
    Steps-Tracked 188 1000000 no_filters one_closed
      (step no_filters opened one_closed (open_step (λ h. sent) false (some 5) 18 78 255 no_filters)
        (step opened both_open one_closed (open_step (λ h. sent) false (some 6) 18 64 255 opened) (
          step both_open one_closed one_closed (close_step (λ h. sent) false (some 5) both_open)
            (stay one_closed))))
      no_filters-Tracked

deliver_lem_example :
    let (out, fs') = deliver 188 (λ h. sent) 18 78 (78 ∷ []) true (eit ∷ []) in
    (others 18 78 fs' ≡ others 18 78 (eit ∷ [])) × All (λ s. Reached 18 78 (eit ∷ []) s.handle) out
deliver_lem_example = deliver_lem 188 (λ h. sent) 18 78 (78 ∷ []) true (eit ∷ [])
