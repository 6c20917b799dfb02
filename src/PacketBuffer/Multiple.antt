-- ===== src/PacketBuffer/Multiple.antt =====
-- GetStartMultiple of packetbuffer.c: several packets at once, as long as they look adjacent.
pub mod Loop
pub mod Laws
pub mod Uniform
use vdr_plugin_mcli.Prelude.{
  ℕ, zero, suc, ◌+◌, ◌-◌, ◌*◌, ◌/◌, ◌%◌, ◌^◌, ◌≤◌, ◌<◌, ◌≡◌, refl, ap, ap₂, sym, subst, ◌∙◌, ◌≢◌,
  List, [], ◌∷◌, ◌++◌, Option, none, some, Bool, true, false, not, ◌&&◌, ◌||◌, ◌⊎◌, inl, inr, arith,
  ltb, leb, ◌==◌, map, if◌then◌else◌, Bool-cases, Option-cases, get_or, get_or-set_self,
  get_or-set_ne, set, length, length-set, length-replicate, replicate, drop, All, All-set,
  All-append, All-get_or, All-replicate, All-drop,
}
use vdr_plugin_mcli.PacketBuffer.{
  PosData, PacketBuffer, slot, wrap, Round, Polled, Packet, packet, get_start_sub, flush,
}

-- The loop's way out: what is written through the pointers, and posReadNum.
abbrev pub stop : ℕ → ℕ → Packet → PacketBuffer → Polled Packet
stop packets totalsize first b =
    some (some (record first { size = totalsize }), record b { pos_read_num = packets })

-- The tests behind GetStartSub in one round of the loop, where `first` is the packet that the run
-- begins with and `lastbuf` the place of the one before; `go_on` is the rest of the loop.
pub multiple_round :
    (maxsize packets totalsize lastbuf : ℕ) (first : Packet)
    → Polled Packet
    → (Packet → PacketBuffer → Polled Packet)
    → Polled Packet
multiple_round maxsize packets totalsize lastbuf first none go_on = none
multiple_round maxsize packets totalsize lastbuf first (some (none, b)) go_on =
    stop packets totalsize first b
multiple_round maxsize packets totalsize lastbuf first (some (some p, b)) go_on =
    let rest = go_on p b in
    if not (lastbuf + p.size == p.offset)
      || (ltb maxsize (totalsize + p.size) || not (p.flags == 0))
    then stop packets totalsize first b
    else rest

-- The rounds behind the first, with timeout 0; the packets still to be looked at bound their number.
pub multiple_loop :
    ℕ → (maxsize readp packets totalsize lastbuf : ℕ) → Packet → PacketBuffer → Polled Packet
multiple_loop zero maxsize readp packets totalsize lastbuf first b = none
multiple_loop (suc fuel) maxsize readp packets totalsize lastbuf first b =
    multiple_round maxsize packets totalsize lastbuf first (get_start_sub [] 0 readp 0 b) λ p b'.
      multiple_loop fuel maxsize (wrap b' (readp + 1)) (packets + 1) (totalsize + p.size) p.offset
        first b'

-- The first round: without a packet the call returns NULL.
pub multiple_first : ℕ → ℕ → Polled Packet → Polled Packet
multiple_first maxsize readp none = none
multiple_first maxsize readp (some (none, b)) = some (none, b)
multiple_first maxsize readp (some (some p, b)) =
    multiple_loop b.pos_size maxsize (wrap b (readp + 1)) 1 p.size p.offset p b

-- GetStartMultiple. No packet is put between the rounds of the loop.
pub get_start_multiple : List Round → ℕ → ℕ → PacketBuffer → Polled Packet
get_start_multiple rounds starttime maxsize b =
    if b.invalidate
    then some (none, flush b)
    else multiple_first maxsize b.rp (get_start_sub rounds starttime b.rp b.get_timeout b)
