-- ===== src/Filter/Filters.antt =====
-- cMcliFilters of filter.c: the list of the open filters, the packet buffer they read from, and the
-- PIDs with their tables. The list of VDR (cList) is a list, to whose end Add appends. What the sockets
-- answer is a function of the handle; logging leaves errno as it is.
pub mod Handles
pub mod Keeps
pub mod Tracked
pub mod Deliver
use vdr_plugin_mcli.Prelude.{
  ℕ, zero, suc, ◌+◌, ◌-◌, ◌*◌, ◌/◌, ◌%◌, Bool, true, false, not, ◌&&◌, Option, none, some, List, [],
  ◌∷◌, ◌++◌, ltb, leb, ◌==◌, if◌then◌else◌,
}
use vdr_plugin_mcli.PacketBuffer.{
  PacketBuffer, create, set_timeouts, Round, put_start, put_end, fill, get_start, get_end,
}
use vdr_plugin_mcli.PacketBuffer.Bytes.{bytes_at}
use vdr_plugin_mcli.Filter.PidList.{McliPid, no_tid, get_tid_from_pid, set_pid}
use vdr_plugin_mcli.Filter.Section as Section
use vdr_plugin_mcli.Filter.Section.{McliFilter, WriteResult, matches, is_closed, put_section}
use vdr_plugin_mcli.Filter.Demux.{Chunk, packet_pid, packet_chunks}

-- The members of cMcliFilters; `pb` is `none` for NULL.
pub record McliFilters : Type 0 where
  pub pb : Option PacketBuffer
  pub pl : List McliPid
  pub filters : List McliFilter

-- What write() answers on the socket with a handle.
abbrev pub Sockets : Type 0
Sockets = Option ℕ → WriteResult

-- ReadPipe () == Handle, where `none` is -1.
pub has_handle : Option ℕ → Option ℕ → Bool
has_handle none none = true
has_handle (some a) (some b) = a == b
has_handle none (some b) = false
has_handle (some a) none = false

-- GetFilter
pub get_filter : List McliFilter → Option ℕ → Option McliFilter
unfolding has_handle
get_filter [] handle = none
get_filter (f ∷ fs) handle = if has_handle f.pipe handle then some f else get_filter fs handle

-- WantPid
pub want_pid : List McliFilter → ℕ → Bool
want_pid [] pid = false
want_pid (f ∷ fs) pid = if pid == f.pid then true else want_pid fs pid

-- The count `used` of GetPid.
pub uses : List McliFilter → ℕ → ℕ
uses [] pid = 0
uses (f ∷ fs) pid = (if pid == f.pid then 1 else 0) + uses fs pid

-- GetPid; `none` is -1.
pub get_pid : List McliFilter → Option ℕ → Option ℕ
unfolding get_filter uses
get_pid fs handle = elim (get_filter fs handle) [
  | none ↦ none
  | some f ↦ if uses fs f.pid == 1 then some f.pid else none
]

-- GarbageCollect, with errno as far as it is looked at.
pub garbage_collect : Sockets → Bool → List McliFilter → List McliFilter
garbage_collect sockets broken [] = []
garbage_collect sockets broken (f ∷ fs) =
    let (closed, errno, f') = is_closed (sockets f.pipe) broken f in
    let rest = garbage_collect sockets errno fs in if closed && errno then rest else f' ∷ rest

-- Del (f) for the filter that GetFilter found.
pub del_filter : List McliFilter → Option ℕ → List McliFilter
unfolding has_handle
del_filter [] handle = []
del_filter (f ∷ fs) handle = if has_handle f.pipe handle then fs else f ∷ del_filter fs handle

-- CloseFilter behind the garbage collection: the PID that no filter wants any more, if there is one.
-- The filter that is closed is deleted at once.
pub forget_filter : Option ℕ → McliFilters → Option ℕ × McliFilters
unfolding get_pid del_filter
forget_filter handle m =
    let pid = get_pid m.filters handle in
    (
      pid,
      record m {
        pl = elim pid [ none ↦ m.pl | some p ↦ set_pid m.pl p none ];
        filters = del_filter m.filters handle;
      },
    )

-- CloseFilter
pub close_filter : Sockets → Bool → Option ℕ → McliFilters → Option ℕ × McliFilters
unfolding forget_filter garbage_collect
close_filter sockets broken handle m =
    forget_filter handle (record m { filters = garbage_collect sockets broken m.filters })

-- `new cMyPacketBuffer (10000 * TS_SIZE, 10000)` and its SetTimeouts.
pub new_buffer : ℕ → ℕ → PacketBuffer
new_buffer ts_size clocks_per_sec =
    set_timeouts 0 (clocks_per_sec * 20 / 1000) (create (10000 * ts_size) 10000)

-- OpenFilter behind the garbage collection, for the handle that socketpair gives the new filter.
pub add_filter : ℕ → ℕ → Option ℕ → ℕ → ℕ → ℕ → McliFilters → Option ℕ × McliFilters
unfolding new_buffer want_pid
add_filter ts_size clocks_per_sec handle pid tid mask m = (
  handle,
  record {
    pb = elim m.pb [ none ↦ some (new_buffer ts_size clocks_per_sec) | some b ↦ some b ];
    pl = if want_pid m.filters pid then m.pl else set_pid m.pl pid (some no_tid);
    filters = m.filters ++ Section.create handle pid tid mask ∷ [];
  },
)

-- OpenFilter
pub open_filter :
    ℕ → ℕ → Sockets → Bool → Option ℕ → ℕ → ℕ → ℕ → McliFilters → Option ℕ × McliFilters
unfolding add_filter garbage_collect
open_filter ts_size clocks_per_sec sockets broken handle pid tid mask m =
    add_filter ts_size clocks_per_sec handle pid tid mask
      (record m { filters = garbage_collect sockets broken m.filters })

-- The loop of PutTS from `i` on; the fuel bounds its rounds. `none` is a PutStart that has not returned.
unfoldable pub put_packets :
    ℕ → ℕ → (ℕ → List Round) → (ℕ → ℕ) → ℕ → ℕ → PacketBuffer → Option PacketBuffer
put_packets zero ts_size rounds mem i len b = some b
put_packets (suc fuel) ts_size rounds mem i len b =
    if ltb i len
    then elim (put_start (rounds i) ts_size b) [
      | none ↦ none
      | some (none, b') ↦ put_packets fuel ts_size rounds mem (i + ts_size) len b'
      | some (some p, b') ↦
          put_packets fuel ts_size rounds mem (i + ts_size) len
            (put_end ts_size 0 0 (fill p (bytes_at mem i ts_size) b'))
    ]
    else some b

-- PutTS
unfoldable pub put_ts : ℕ → (ℕ → List Round) → (ℕ → ℕ) → ℕ → McliFilters → Option McliFilters
unfolding put_packets want_pid
put_ts ts_size rounds mem len m = elim m.pb [
  | none ↦ some m
  | some b ↦
      if want_pid m.filters (packet_pid mem 0)
      then elim (put_packets len ts_size rounds mem 0 len b) [
        | none ↦ none
        | some b' ↦ some (record m { pb = some b' })
      ]
      else some m
]

-- What is handed to write() on a socket.
pub record Sent : Type 0 where
  pub handle : Option ℕ
  pub bytes : List ℕ

abbrev pub sent_on : Option ℕ → Option (List ℕ) → List Sent
sent_on handle none = []
sent_on handle (some bytes) = record { handle = handle; bytes = bytes } ∷ []

-- The loop of ProcessChunk over the filters, for a table id that is known.
pub deliver : ℕ → Sockets → ℕ → ℕ → List ℕ → Bool → List McliFilter → List Sent × List McliFilter
deliver ts_size sockets pid tid chunk pusi [] = ([], [])
deliver ts_size sockets pid tid chunk pusi (f ∷ fs) =
    let (out, rest) = deliver ts_size sockets pid tid chunk pusi fs in
    let put = put_section ts_size (sockets f.pipe) chunk pusi f in
    if matches f pid tid
    then (sent_on f.pipe put.written ++ out, if put.ok then put.filter ∷ rest else rest)
    else (out, f ∷ rest)

-- ProcessChunk
pub process_chunk : ℕ → Sockets → ℕ → (ℕ → ℕ) → Chunk → McliFilters → List Sent × McliFilters
unfolding deliver
process_chunk ts_size sockets pid mem c m =
    let pl = if c.pusi then set_pid m.pl pid (some (mem c.start)) else m.pl in
    let tid = if c.pusi then some (mem c.start) else get_tid_from_pid m.pl pid in
    elim tid [
      | none ↦ ([], record m { pl = pl })
      | some t ↦
          let (out, fs) =
            deliver ts_size sockets pid t (bytes_at mem c.start c.len) c.pusi m.filters in
          (out, record m { pl = pl; filters = fs })
    ]

-- The calls of ProcessChunk for one packet, in their order.
pub process_chunks : ℕ → Sockets → ℕ → (ℕ → ℕ) → List Chunk → McliFilters → List Sent × McliFilters
unfolding process_chunk
process_chunks ts_size sockets pid mem [] m = ([], m)
process_chunks ts_size sockets pid mem (c ∷ cs) m =
    let (out, m') = process_chunk ts_size sockets pid mem c m in
    let (out', m'') = process_chunks ts_size sockets pid mem cs m' in (out ++ out', m'')

-- One round of Action; `none` is a GetStart that has not returned.
pub action : ℕ → Sockets → List Round → ℕ → McliFilters → Option (List Sent × McliFilters)
unfolding process_chunks
action ts_size sockets rounds starttime m = elim m.pb [
  | none ↦ none
  | some b ↦ elim (get_start rounds starttime (get_end b)) [
    | none ↦ none
    | some (none, b') ↦ some ([], record m { pb = some b' })
    | some (some p, b') ↦ some (
        process_chunks ts_size sockets (packet_pid b'.data_buffer p.offset) b'.data_buffer
          (packet_chunks b'.data_buffer p.offset) (record m { pb = some b' }))
  ]
]
