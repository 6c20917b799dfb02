-- ===== src/PacketBuffer.antt =====
-- cMyPacketBuffer of packetbuffer.h and packetbuffer.c: a ring of packet descriptors over a byte
-- buffer. Pointers into the two arrays are indices. Sizes, flags and timeouts are the natural
-- numbers that the plugin passes; `-1` and NULL are `none`. A call that polls takes the rounds of its
-- loop: the readings of Now() and what the other thread does during the sleep. Its result is `none`
-- while it still waits at the end of the rounds given.
pub mod Live
pub mod Valid
pub mod Fifo
pub mod Preserve
pub mod Create
pub mod Put
pub mod Get
pub mod Space
pub mod Bytes
pub mod Multiple
pub mod Wait
mod Tests
pub mod Refines
use vdr_plugin_mcli.Prelude.{
  ℕ, zero, suc, ◌+◌, ◌-◌, ◌*◌, ◌/◌, ◌%◌, ◌^◌, bit_and, Bool, true, false, not, ◌&&◌, ◌||◌, Option,
  none, some, List, [], ◌∷◌, ltb, leb, ◌==◌, if◌then◌else◌, get_or, set, replicate,
}

-- posData
pub record PosData : Type 0 where
  pub offset : ℕ
  pub size : ℕ
  pub real_size : ℕ
  pub flags : ℕ
  pub timestamp : ℕ

-- What `memset` leaves.
abbrev pub zero_pos : PosData
zero_pos = record { offset = 0; size = 0; real_size = 0; flags = 0; timestamp = 0 }

-- `data_buffer` gives the byte at each offset; `locked` is the state of m_lock.
pub record PacketBuffer : Type 0 where
  pub data_size : ℕ
  pub pos_size : ℕ
  pub data_buffer : ℕ → ℕ
  pub pos_buffer : List PosData
  pub rp : ℕ
  pub wp : ℕ
  pub pos_read : Option ℕ
  pub pos_write : Option ℕ
  pub pos_read_num : ℕ
  pub invalidate : Bool
  pub put_timeout : ℕ
  pub get_timeout : ℕ
  pub locked : Bool

-- The loop that makes `Packets` a power of 2: `rounds` are left, and `n` is the candidate.
pub round_up : ℕ → ℕ → ℕ → ℕ
round_up zero n packets = packets
round_up (suc rounds) n packets =
    let rest = round_up rounds (n * 2) packets in if leb packets n then n else rest

abbrev pub default_packets : ℕ → ℕ → ℕ
default_packets size packets = if packets == 0 then size / 2048 else packets

-- cMyPacketBuffer (Size, Packets)
pub create : ℕ → ℕ → PacketBuffer
create size packets =
    let slots = round_up 16 1 (default_packets size packets) in
    record {
      data_size = size;
      pos_size = slots;
      data_buffer = λ _. 0;
      pos_buffer = replicate slots zero_pos;
      rp = 0;
      wp = 0;
      pos_read = none;
      pos_write = none;
      pos_read_num = 0;
      invalidate = false;
      put_timeout = 0;
      get_timeout = 0;
      locked = false;
    }

-- posBuffer[i]
abbrev pub slot : PacketBuffer → ℕ → PosData
slot b i = get_or b.pos_buffer i zero_pos

-- i & (posSize - 1)
abbrev pub wrap : PacketBuffer → ℕ → ℕ
wrap b i = bit_and i (b.pos_size - 1)

-- (wp - 1) & (posSize - 1), where `int` arithmetic turns 0 - 1 into 32 ones.
abbrev pub last_slot : PacketBuffer → ℕ
last_slot b = wrap b ((b.wp + 2 ^ 32 - 1) % 2 ^ 32)

-- Where the packet behind `pw` begins.
abbrev pub behind : PosData → ℕ
behind pw = pw.offset + pw.real_size

-- FindSpace behind the test for an empty ring, with `pr` the oldest packet and `pw` the newest.
pub space_between : ℕ → PosData → PosData → ℕ → Option ℕ
space_between data_size pr pw size =
    if leb pr.offset pw.offset
    then (if ltb (behind pw + size) data_size
        then some (behind pw)
        else if ltb size pr.offset
        then some 0
        else none)
    else if ltb (behind pw + size) data_size
    then some (behind pw)
    else none

-- FindSpace
pub find_space : PacketBuffer → ℕ → Option ℕ
unfolding space_between
find_space b size =
    if b.rp == b.wp
    then (if ltb b.data_size size then none else some 0)
    else space_between b.data_size (slot b b.rp) (slot b (last_slot b)) size

-- One round of a polling loop: Now() where `starttime` is set, Now() at the test, and the steps of
-- the other thread until the loop looks again.
pub record Round : Type 0 where
  pub start : ℕ
  pub now : ℕ
  pub others : PacketBuffer → PacketBuffer

-- Now () - starttime, in uint64_t.
abbrev pub elapsed : ℕ → ℕ → ℕ
elapsed now starttime = (now + 2 ^ 64 - starttime) % 2 ^ 64

-- The end of PutStart: posWrite takes the slot at `wp`.
pub reserve : PacketBuffer → ℕ → ℕ → PacketBuffer
reserve b offset rsize =
    let nwp = wrap b b.wp in
    record b {
      pos_write = some nwp;
      pos_buffer =
          set b.pos_buffer nwp (record (slot b nwp) { offset = offset; real_size = rsize });
    }

abbrev pub unlock : PacketBuffer → PacketBuffer
unlock b = record b { locked = false }

abbrev pub Polled : Type 0 → Type 0
Polled A = Option (Option A × PacketBuffer)

-- The loop of PutStart.
pub put_start_loop : List Round → ℕ → ℕ → PacketBuffer → Polled ℕ
put_start_loop [] starttime rsize b = elim (find_space b rsize) [
  | some offset ↦ some (some offset, reserve b offset rsize)
  | none ↦ if b.put_timeout == 0 then some (none, unlock b) else none
]
put_start_loop (r ∷ rounds) starttime rsize b =
    let start = if not (b.put_timeout == 0) && starttime == 0 then r.start else starttime in
    let rest = put_start_loop rounds start rsize (r.others b) in
    elim (find_space b rsize) [
      | some offset ↦ some (some offset, reserve b offset rsize)
      | none ↦
          if b.put_timeout == 0 || ltb b.put_timeout (elapsed r.now start)
          then some (none, unlock b)
          else rest
    ]

-- PutStart, once m_lock is taken. The result is an offset into the data buffer, or NULL.
pub put_start : List Round → ℕ → PacketBuffer → Polled ℕ
put_start rounds size b = put_start_loop rounds 0 size (record b { locked = true })

-- What PutEnd writes into a descriptor.
abbrev pub seal : PosData → ℕ → ℕ → ℕ → PosData
seal e size flags timestamp = record e {
  size = if ltb e.real_size size then e.real_size else size;
  flags = flags;
  timestamp = timestamp;
}

-- PutEnd
pub put_end : ℕ → ℕ → ℕ → PacketBuffer → PacketBuffer
put_end size flags timestamp b = elim b.pos_write [
  | none ↦ b
  | some i ↦ record b {
    pos_buffer = set b.pos_buffer i (seal (slot b i) size flags timestamp);
    wp = wrap b (b.wp + 1);
    locked = false;
  }
]

-- The caller's memcpy of `bytes` to the pointer that PutStart returned.
abbrev pub store : (ℕ → ℕ) → ℕ → List ℕ → ℕ → ℕ
store mem offset [] a = mem a
store mem offset (x ∷ xs) a = if offset == a then x else store mem (offset + 1) xs a

pub fill : ℕ → List ℕ → PacketBuffer → PacketBuffer
fill offset bytes b = record b { data_buffer = store b.data_buffer offset bytes }

-- What a reader gets: the pointer, and what is written through `size`, `flags` and `timestamp`.
pub record Packet : Type 0 where
  pub offset : ℕ
  pub size : ℕ
  pub flags : ℕ
  pub timestamp : Option ℕ

abbrev pub packet : PosData → Packet
packet e = record {
  offset = e.offset;
  size = e.size;
  flags = e.flags;
  timestamp = some e.timestamp;
}

-- GetStartSub; `starttime` is Now() on entry.
pub get_start_sub : List Round → ℕ → ℕ → ℕ → PacketBuffer → Polled Packet
get_start_sub [] starttime readp timeout b =
    if readp == b.wp
    then (if timeout == 0 then some (none, b) else none)
    else some (some (packet (slot b readp)), record b { pos_read = some readp })
get_start_sub (r ∷ rounds) starttime readp timeout b =
    let rest = get_start_sub rounds starttime readp timeout (r.others b) in
    if readp == b.wp
    then (if timeout == 0 || ltb timeout (elapsed r.now starttime) then some (none, b) else rest)
    else some (some (packet (slot b readp)), record b { pos_read = some readp })

-- Both kinds of GetStart drop all packets after Invalidate.
abbrev pub flush : PacketBuffer → PacketBuffer
flush b = record b { rp = b.wp; invalidate = false }

-- GetStart; a packet that is held already is returned again, without its timestamp.
pub get_start : List Round → ℕ → PacketBuffer → Polled Packet
unfolding get_start_sub
get_start rounds starttime b = elim b.pos_read [
  | some i ↦ some (some (record (packet (slot b i)) { timestamp = none }), b)
  | none ↦
      if b.invalidate
      then some (none, flush b)
      else get_start_sub rounds starttime b.rp b.get_timeout (record b { pos_read_num = 1 })
]

-- GetEnd
pub get_end : PacketBuffer → PacketBuffer
get_end b = elim b.pos_read [
  | none ↦ b
  | some _ ↦ record b { rp = wrap b (b.rp + b.pos_read_num); pos_read = none; pos_read_num = 0 }
]

-- SetTimeouts
pub set_timeouts : ℕ → ℕ → PacketBuffer → PacketBuffer
set_timeouts put get b = record b { put_timeout = put; get_timeout = get }

-- Invalidate
pub invalidate_all : PacketBuffer → PacketBuffer
invalidate_all b = record b { invalidate = true }
