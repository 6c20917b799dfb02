-- ===== src/PacketBuffer/Fifo.antt =====
-- PutStart, PutEnd, GetStart and GetEnd of packetbuffer.c as a first-in first-out queue of
-- descriptors.
use mathlib.Core.Path.{ap₂}
use native.Mathlib.Nat.{mod-eq_of_lt}
use vdr_plugin_mcli.Prelude.{
  ℕ, ◌+◌, ◌≤◌, ◌<◌, ◌≡◌, refl, ap, sym, ◌∙◌, List, [], ◌∷◌, ◌++◌, none, some, false, arith, get_or,
  get_or-set_self, set, length, drop,
}
use vdr_plugin_mcli.PacketBuffer.{
  PosData, PacketBuffer, zero_pos, slot, wrap, reserve, seal, put_end, get_end,
}
use vdr_plugin_mcli.PacketBuffer.Live.{
  advance, advance-eq-mod, live_from, live_from-set, live_from-snoc, live_from-drop, between,
  between-advance_write, between_full, between-advance_read, count, live,
}
use vdr_plugin_mcli.PacketBuffer.Valid.{Held, IsValid, wrap-eq-mod}

-- The write index lies behind the packets that wait.
pub wp-eq-advance : {b : PacketBuffer} → IsValid b → b.wp ≡ advance b.pos_size b.rp (count b)
wp-eq-advance {b} v = ground (arith, v.rp_in, v.wp_in)

pub count-lt : {b : PacketBuffer} → IsValid b → count b < b.pos_size
count-lt {b} v = ground (arith, v.rp_in, v.wp_in)

pub wrap_self : {b : PacketBuffer} → IsValid b → wrap b b.wp ≡ b.wp
wrap_self {b} v = wrap-eq-mod v b.wp ∙ mod-eq_of_lt v.wp_in

pub wrap-advance :
    {b : PacketBuffer}
    → IsValid b
    → (i n : ℕ) → i < b.pos_size
    → n ≤ b.pos_size
    → wrap b (i + n) ≡ advance b.pos_size i n
wrap-advance {b} v i n h k = wrap-eq-mod v (i + n) ∙ sym (advance-eq-mod b.pos_size i n h k)

-- PutStart takes a slot that no packet is in.
pub live-reserve :
    {b : PacketBuffer} (offset rsize : ℕ) → IsValid b → live (reserve b offset rsize) ≡ live b
unfolding reserve
live-reserve {b} offset rsize v =
    live_from-set b.pos_buffer b.pos_size (wrap b b.wp) _ b.rp (count b) (count b)
      (wrap_self v ∙ wp-eq-advance v) v.rp_in (omega arith) (count-lt v)

-- PutEnd on the reserved slot, spelled out.
pub put_end_lem :
    {b : PacketBuffer} (size flags timestamp : ℕ)
    → IsValid b
    → b.pos_write ≡ some b.wp
    → put_end size flags timestamp b ≡ record b {
      pos_buffer = set b.pos_buffer b.wp (seal (slot b b.wp) size flags timestamp);
      wp = advance b.pos_size b.wp 1;
      locked = false;
    }
unfolding put_end
put_end_lem {b} size flags timestamp v w =
    rw w (rw (wrap-advance v b.wp 1 v.wp_in (omega (arith, v.wp_in))) refl)

module _ {b : PacketBuffer} (v : IsValid b) (w : b.pos_write ≡ some b.wp)
    (size flags timestamp : ℕ) where
  -- With a slot to spare, PutEnd appends the packet.
  pub live-put_end :
      count b + 1 < b.pos_size
      → live (put_end size flags timestamp b)
        ≡ live b ++ seal (slot b b.wp) size flags timestamp ∷ []
  live-put_end room =
      let e : PosData = seal (slot b b.wp) size flags timestamp in
      let pos : List PosData = set b.pos_buffer b.wp e in
      let here : b.wp ≡ advance b.pos_size b.rp (count b) = wp-eq-advance v in
      let inside : b.wp < length b.pos_buffer = omega (arith, v.slots, v.wp_in) in
      ap live (put_end_lem size flags timestamp v w)
      ∙ ap (live_from pos b.pos_size b.rp)
          (between-advance_write b.pos_size b.rp b.wp v.rp_in v.wp_in room)
      ∙ live_from-snoc pos b.pos_size b.rp (count b) v.rp_in (count-lt v)
      ∙ ap₂ (λ old new. old ++ new ∷ [])
          (live_from-set b.pos_buffer b.pos_size b.wp e b.rp (count b) (count b) here v.rp_in
            (omega arith) (count-lt v))
          (ap (λ i. get_or pos i zero_pos) (sym here)
            ∙ get_or-set_self b.pos_buffer b.wp e zero_pos inside)

  -- Without one, PutEnd drops every packet that waits.
  pub live-put_end_full : count b + 1 ≡ b.pos_size → live (put_end size flags timestamp b) ≡ []
  live-put_end_full full =
      ap live (put_end_lem size flags timestamp v w)
      ∙ ap
          (live_from (set b.pos_buffer b.wp (seal (slot b b.wp) size flags timestamp)) b.pos_size
            b.rp)
          (between_full b.pos_size b.rp b.wp v.rp_in v.wp_in full)

-- GetEnd takes the packets that were got from the front.
pub get_end_lem :
    {b : PacketBuffer} {i : ℕ}
    → IsValid b
    → b.pos_read ≡ some i
    → b.pos_read_num ≤ count b
    → get_end b
      ≡ record b { rp = advance b.pos_size b.rp b.pos_read_num; pos_read = none; pos_read_num = 0 }
unfolding get_end
get_end_lem {b} v r h =
    rw r (rw (wrap-advance v b.rp b.pos_read_num v.rp_in (omega (arith, count-lt v))) refl)

pub Held-of_read :
    (b : PacketBuffer) {i : ℕ} → Held b → b.pos_read ≡ some i → b.pos_read_num ≤ count b
Held-of_read b h r = ground arith

pub live-get_end :
    {b : PacketBuffer} {i : ℕ}
    → IsValid b
    → b.pos_read ≡ some i
    → live (get_end b) ≡ drop b.pos_read_num (live b)
live-get_end {b} v r =
    let h : b.pos_read_num ≤ count b = Held-of_read b v.held r in
    let e = between-advance_read b.pos_size b.rp b.wp b.pos_read_num v.rp_in v.wp_in h in
    let lt = count-lt v in
    ap live (get_end_lem v r h)
    ∙ sym (
        live_from-drop b.pos_buffer b.pos_size b.rp b.pos_read_num
          (between b.pos_size (advance b.pos_size b.rp b.pos_read_num) b.wp) v.rp_in (omega arith))
    ∙ ap (λ n. drop b.pos_read_num (live_from b.pos_buffer b.pos_size b.rp n)) e
