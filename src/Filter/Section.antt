-- ===== src/Filter/Section.antt =====
-- cMcliFilter of filter.c: one section filter, which puts a section together from the chunks of the TS
-- packets and writes it to its socket. What a write to the socket comes to is an argument.
pub mod Assembly
pub mod Keeps
pub mod Whole
use vdr_plugin_mcli.Prelude.{
  ℕ, suc, ◌+◌, ◌-◌, ◌*◌, ◌%◌, bit_and, Bool, true, false, not, ◌&&◌, ◌||◌, Option, none, some, List,
  [], ◌∷◌, ltb, leb, ◌==◌, if◌then◌else◌, length,
}
use vdr_plugin_mcli.PacketBuffer.{store}
use vdr_plugin_mcli.PacketBuffer.Bytes.{bytes_at}

-- `pipe` is the pair of descriptors m_Pipe, of which the read end is the filter's handle; `none` is -1.
-- m_Buffer gives the byte at each index.
pub record McliFilter : Type 0 where
  pub buffer : ℕ → ℕ
  pub used : ℕ
  pub closed : Bool
  pub pipe : Option ℕ
  pub pid : ℕ
  pub tid : ℕ
  pub mask : ℕ

-- cMcliFilter (Pid, Tid, Mask), where `handle` is what socketpair gave. The constructor leaves
-- m_Buffer as it is; zeros stand for that.
pub create : Option ℕ → ℕ → ℕ → ℕ → McliFilter
create handle pid tid mask = record {
  buffer = λ _. 0;
  used = 0;
  closed = false;
  pipe = handle;
  pid = pid;
  tid = tid;
  mask = mask;
}

-- What write() to the socket returns: the data is sent, the socket is full (EAGAIN, EWOULDBLOCK), or an
-- error, which is ECONNREFUSED, ECONNRESET or EPIPE if the flag is set.
pub data WriteResult : Type 0 where
  sent : WriteResult
  again : WriteResult
  failed : Bool → WriteResult

-- Matches; `(u_char) tid & m_Mask`.
pub matches : McliFilter → ℕ → ℕ → Bool
matches f pid tid = f.pid == pid && f.tid == bit_and (tid % 256) f.mask

-- Reset
pub reset : McliFilter → McliFilter
reset f = record f { used = 0 }

-- sizeof (m_Buffer)
abbrev pub buffer_size : ℕ
buffer_size = 65536

-- The length that bytes 1 and 2 of a section announce, header included:
-- (((b[1] & 0x0F) << 8) | b[2]) + 3 for bytes.
abbrev pub announced : (ℕ → ℕ) → ℕ
announced b = b 1 % 16 * 256 + b 2 + 3

-- The end of PutSection behind the write: a rest would be dropped with a packet that is not full.
pub drop_rest : ℕ → ℕ → ℕ → McliFilter → McliFilter
unfolding reset
drop_rest ts_size len section f =
    if ltb section f.used then (if ltb (len + 5) ts_size then reset f else f) else f

-- What PutSection returns, what it handed to write(), and the filter.
pub record Put : Type 0 where
  pub ok : Bool
  pub written : Option (List ℕ)
  pub filter : McliFilter

-- PutSection behind the copy to m_Buffer, with `section` the announced length.
pub write_section : ℕ → WriteResult → ℕ → McliFilter → Put
unfolding drop_rest
write_section ts_size outcome len f =
    let section = announced f.buffer in
    let bytes = bytes_at f.buffer 0 section in
    let f' = record f { used = 0 } in
    if leb section f.used
    then elim outcome [
      | failed _ ↦ record { ok = false; written = some bytes; filter = record f' { closed = true } }
      | other ↦ record {
        ok = true;
        written = some bytes;
        filter = drop_rest ts_size len section f';
      }
    ]
    else record { ok = true; written = none; filter = drop_rest ts_size len section f }

-- PutSection behind the tests of the payload unit start.
pub append_chunk : ℕ → WriteResult → List ℕ → McliFilter → Put
unfolding write_section reset
append_chunk ts_size outcome chunk f =
    let f' = record f { buffer = store f.buffer f.used chunk; used = f.used + length chunk } in
    if leb buffer_size (f.used + length chunk)
    then record { ok = true; written = none; filter = reset f }
    else (if ltb 3 f'.used
        then write_section ts_size outcome (length chunk) f'
        else record { ok = true; written = none; filter = f' })

-- PutSection
pub put_section : ℕ → WriteResult → List ℕ → Bool → McliFilter → Put
unfolding append_chunk reset
put_section ts_size outcome chunk pusi f =
    if f.used == 0 && not pusi
    then record { ok = true; written = none; filter = f }
    else append_chunk ts_size outcome chunk (if not (f.used == 0) && pusi then reset f else f)

-- IsClosed, with errno as far as it is looked at: whether it is one of the three errors above. The
-- outcome is that of writing three bytes, which is done unless the filter is known to be closed.
unfoldable pub is_closed : WriteResult → Bool → McliFilter → Bool × Bool × McliFilter
is_closed outcome broken f = if f.closed then (true, broken, f) else elim outcome [
  | sent ↦ (false, broken, f)
  | again ↦ (false, false, f)
  | failed e ↦ (true, e, record f { closed = true })
]

-- Close
pub close : McliFilter → McliFilter
close f = record f { pipe = none; closed = true }
