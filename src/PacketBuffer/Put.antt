-- ===== src/PacketBuffer/Put.antt =====
-- PutStart and PutEnd of packetbuffer.c, with the waiting loop.
use vdr_plugin_mcli.Prelude.{
  ℕ, ◌+◌, ◌≤◌, ◌<◌, ◌≡◌, refl, ap, subst, ◌∙◌, List, [], ◌∷◌, ◌++◌, Option, none, some, Bool, true,
  false, inl, inr, arith, ◌==◌, if◌then◌else◌, Option-cases, get_or, get_or-set_self, set, length,
  All,
}
use vdr_plugin_mcli.PacketBuffer.{
  PosData, PacketBuffer, slot, zero_pos, wrap, Round, Polled, find_space, reserve, unlock,
  put_start_loop, put_start, seal, put_end, fill,
}
use vdr_plugin_mcli.PacketBuffer.Live.{count, live}
use vdr_plugin_mcli.PacketBuffer.Valid.{IsValid}
use vdr_plugin_mcli.PacketBuffer.Fifo.{wrap_self, live-put_end, live-put_end_full}
use vdr_plugin_mcli.PacketBuffer.Preserve.{find_space_bound, reserve-IsValid, put_end-IsValid}

-- What the other thread does while PutStart sleeps keeps the buffer valid, and does not touch m_lock.
abbrev pub Keeps : Round → Type 0
Keeps r = (b : PacketBuffer) → IsValid b → IsValid (r.others b) × ((r.others b).locked ≡ b.locked)

-- The state after PutStart: with NULL the lock is free again; with a pointer it is taken, the slot at
-- wp describes the place, and the place lies in the data buffer.
abbrev pub Placed : ℕ → Option ℕ → PacketBuffer → Type 0
Placed size none b = b.locked ≡ false
Placed size (some offset) b =
    (b.locked ≡ true)
    × (b.pos_write ≡ some b.wp)
    × ((slot b b.wp).offset ≡ offset)
    × ((slot b b.wp).real_size ≡ size)
    × (offset + size ≤ b.data_size)

reserve-Placed :
    {b : PacketBuffer} (offset size : ℕ)
    → IsValid b
    → b.locked ≡ true
    → offset + size ≤ b.data_size
    → Placed size (some offset) (reserve b offset size)
unfolding reserve
reserve-Placed {b} offset size v l h =
    let e : PosData = record (slot b (wrap b b.wp)) { offset = offset; real_size = size } in
    let inside : b.wp < length b.pos_buffer = omega (arith, v.slots, v.wp_in) in
    let there : get_or (set b.pos_buffer (wrap b b.wp) e) b.wp zero_pos ≡ e =
      ap (λ i. get_or (set b.pos_buffer i e) b.wp zero_pos) (wrap_self v)
      ∙ get_or-set_self b.pos_buffer b.wp e zero_pos inside in
    (
      l,
      ap some (wrap_self v),
      ap (λ (x : PosData). x.offset) there,
      ap (λ (x : PosData). x.real_size) there,
      h,
    )

pub relock-IsValid :
    {b : PacketBuffer} (locked : Bool) → IsValid b → IsValid (record b { locked = locked })
relock-IsValid locked v = record {
  power = v.power;
  slots = v.slots;
  rp_in = v.rp_in;
  wp_in = v.wp_in;
  read_in = v.read_in;
  write_in = v.write_in;
  fits = v.fits;
  sizes = v.sizes;
  held = v.held;
}

-- What holds when the loop ends, if it does.
abbrev Ends : ℕ → Polled ℕ → Type 0
Ends size none = Unit {0}
Ends size (some (o, b)) = IsValid b × Placed size o b

refused :
    (size : ℕ) (stop : Bool) (b : PacketBuffer) (rest : Polled ℕ)
    → IsValid b
    → Ends size rest
    → Ends size (if stop then some (none, unlock b) else rest)
refused size true b rest v h = (relock-IsValid false v, refl)
refused size false b rest v h = h

put_start_loop-Ends :
    (rounds : List Round) (starttime size : ℕ) (b : PacketBuffer)
    → All Keeps rounds
    → IsValid b
    → b.locked ≡ true
    → Ends size (put_start_loop rounds starttime size b)
unfolding put_start_loop
put_start_loop-Ends [] starttime size b k v l = elim (Option-cases (find_space b size)) [
  | inl full ↦ rw (full, put_start_loop) (refused size (b.put_timeout == 0) b none v tt)
  | inr (offset, found) ↦
      let h = find_space_bound size offset v found in
      rw (found, put_start_loop) (reserve-IsValid offset size v h, reserve-Placed offset size v l h)
]
put_start_loop-Ends (r ∷ rounds) starttime size b k v l = elim (Option-cases (find_space b size)) [
  | inl full ↦
      let (v', l') = k.0 b v in
      rw (full, put_start_loop)
        (refused size _ b _ v (put_start_loop-Ends rounds _ size (r.others b) k.1 v' (l' ∙ l)))
  | inr (offset, found) ↦
      let h = find_space_bound size offset v found in
      rw (found, put_start_loop) (reserve-IsValid offset size v h, reserve-Placed offset size v l h)
]

-- PutStart keeps a valid buffer valid, if what the other thread does during its waits keeps it
-- valid and does not touch the lock. When it returns, it has the lock and a place inside the data
-- buffer that the slot at wp describes, or it returns NULL with the lock free.
pub put_start_safe :
    (rounds : List Round) (size : ℕ) (b : PacketBuffer) {o : Option ℕ} {b' : PacketBuffer}
    → All Keeps rounds
    → IsValid b
    → put_start rounds size b ≡ some (o, b')
    → IsValid b' × Placed size o b'
unfolding put_start
put_start_safe rounds size b k v e =
    subst (Ends size) e (
      put_start_loop-Ends rounds 0 size (record b { locked = true }) k (relock-IsValid true v) refl)

fill-IsValid :
    {b : PacketBuffer} (offset : ℕ) (bytes : List ℕ) → IsValid b → IsValid (fill offset bytes b)
unfolding fill
fill-IsValid offset bytes v = record {
  power = v.power;
  slots = v.slots;
  rp_in = v.rp_in;
  wp_in = v.wp_in;
  read_in = v.read_in;
  write_in = v.write_in;
  fits = v.fits;
  sizes = v.sizes;
  held = v.held;
}

sealed :
    (e : PosData) (size flags timestamp offset : ℕ)
    → e.offset ≡ offset
    → e.real_size ≡ size
    → seal e size flags timestamp ≡ record {
      offset = offset;
      size = size;
      real_size = size;
      flags = flags;
      timestamp = timestamp;
    }
sealed e size flags timestamp offset ho hs = ground arith

module _ (rounds : List Round) (size flags timestamp : ℕ) (bytes : List ℕ) (b : PacketBuffer)
    {offset : ℕ} {b' : PacketBuffer} (k : All Keeps rounds) (v : IsValid b)
    (placed : put_start rounds size b ≡ some (some offset, b')) where
  -- When PutStart on a valid buffer returns a place, and the other thread kept the buffer valid
  -- during its waits, the caller's copy and PutEnd append the packet behind those that wait then,
  -- and keep the buffer valid, if a slot is left over.
  pub live-put :
      count b' + 1 < b'.pos_size
      → (live (put_end size flags timestamp (fill offset bytes b'))
          ≡ live b'
            ++ record {
              offset = offset;
              size = size;
              real_size = size;
              flags = flags;
              timestamp = timestamp;
            }
              ∷ [])
        × IsValid (put_end size flags timestamp (fill offset bytes b'))
  unfolding fill
  live-put room =
      let (v', p) = put_start_safe rounds size b k v placed in
      let filled : PacketBuffer = fill offset bytes b' in
      let vf : IsValid filled = fill-IsValid offset bytes v' in
      (
        live-put_end vf p.1 size flags timestamp room
            ∙ ap (λ e. live b' ++ e ∷ [])
                (sealed (slot b' b'.wp) size flags timestamp offset p.2 p.3),
        put_end-IsValid size flags timestamp vf p.1 room,
      )

  -- When PutStart on a valid buffer returns a place for the last slot, and the other thread kept
  -- the buffer valid during its waits, PutEnd makes the buffer look empty: no packet waits any
  -- more, whatever waited before.
  pub live-put_full :
      count b' + 1 ≡ b'.pos_size → live (put_end size flags timestamp (fill offset bytes b')) ≡ []
  unfolding fill
  live-put_full full =
      let (v', p) = put_start_safe rounds size b k v placed in
      live-put_end_full (fill-IsValid offset bytes v') p.1 size flags timestamp full
