-- ===== src/PacketBuffer/Preserve.antt =====
-- Each method of packetbuffer.c keeps the invariant, and FindSpace stays in the data buffer.
use vdr_plugin_mcli.Prelude.{
  ℕ, suc, ◌+◌, ◌≤◌, ◌<◌, ◌≡◌, refl, ap, sym, subst, ◌∙◌, [], ◌∷◌, Option, none, some, inl, inr,
  arith, Option-cases, length-set, All, All-set, All-append, All-get_or, All-drop,
}
use vdr_plugin_mcli.PacketBuffer.{
  PosData, PacketBuffer, zero_pos, slot, last_slot, space_between, find_space, reserve, seal,
  put_end, get_end,
}
use vdr_plugin_mcli.PacketBuffer.Live.{advance, between, between-advance_write, count, live}
use vdr_plugin_mcli.PacketBuffer.Valid.{IsValid, Fits, Sized, HeldAt}
use vdr_plugin_mcli.PacketBuffer.Fifo.{
  count-lt, wrap_self, live-reserve, put_end_lem, live-put_end, get_end_lem, Held-of_read,
  live-get_end,
}

-- What FindSpace finds lies in the data buffer.
space_between_bound :
    (data_size : ℕ) (pr pw : PosData) (size offset : ℕ)
    → Fits data_size pr
    → space_between data_size pr pw size ≡ some offset
    → offset + size ≤ data_size
unfolding space_between
space_between_bound data_size pr pw size offset h e = ground arith

pub find_space_bound :
    {b : PacketBuffer} (size offset : ℕ)
    → IsValid b
    → find_space b size ≡ some offset
    → offset + size ≤ b.data_size
unfolding find_space
find_space_bound {b} size offset v e =
    let oldest : Fits b.data_size (slot b b.rp) =
      All-get_or (Fits b.data_size) b.pos_buffer b.rp zero_pos v.fits (omega arith) in
    ground (
      arith,
      space_between_bound b.data_size (slot b b.rp) (slot b (last_slot b)) size offset oldest,
    )

pub reserve-IsValid :
    {b : PacketBuffer} (offset size : ℕ)
    → IsValid b
    → offset + size ≤ b.data_size
    → IsValid (reserve b offset size)
unfolding reserve
reserve-IsValid {b} offset size v h = record {
  power = v.power;
  slots = length-set b.pos_buffer _ _ ∙ v.slots;
  rp_in = v.rp_in;
  wp_in = v.wp_in;
  read_in = v.read_in;
  write_in = rw (wrap_self v) v.wp_in;
  fits = All-set (Fits b.data_size) b.pos_buffer _ _ v.fits h;
  sizes = rw (live-reserve offset size v) v.sizes;
  held = v.held;
}

Held_later : (o : Option ℕ) (num n m : ℕ) → HeldAt o num n → n ≤ m → HeldAt o num m
Held_later none num n m h le = tt
Held_later (some i) num n m h le = omega arith

get_end_idle : (b : PacketBuffer) → b.pos_read ≡ none → get_end b ≡ b
unfolding get_end
get_end_idle b idle = rw idle refl

-- PutEnd keeps the invariant, with a slot to spare.
pub put_end-IsValid :
    {b : PacketBuffer} (size flags timestamp : ℕ)
    → IsValid b
    → b.pos_write ≡ some b.wp
    → count b + 1 < b.pos_size
    → IsValid (put_end size flags timestamp b)
put_end-IsValid {b} size flags timestamp v w room =
    let e : PosData = seal (slot b b.wp) size flags timestamp in
    let lem = put_end_lem size flags timestamp v w in
    let there : Fits b.data_size (slot b b.wp) =
      All-get_or (Fits b.data_size) b.pos_buffer b.wp zero_pos v.fits (omega arith) in
    let sized : Sized e = ground arith in
    let grown = live-put_end v w size flags timestamp room in
    subst IsValid (sym lem) (record {
      power = v.power;
      slots = length-set b.pos_buffer _ _ ∙ v.slots;
      rp_in = v.rp_in;
      wp_in = ground (arith, v.wp_in);
      read_in = v.read_in;
      write_in = v.write_in;
      fits = All-set (Fits b.data_size) b.pos_buffer _ _ v.fits there;
      sizes =
          subst (All Sized) (sym grown ∙ ap live lem)
            (All-append Sized (live b) (e ∷ []) v.sizes (sized, tt));
      held = Held_later b.pos_read _ _ _ v.held (omega (arith, more));
    })
  where
    more : between b.pos_size b.rp (advance b.pos_size b.wp 1) ≡ suc (count b)
    more = between-advance_write b.pos_size b.rp b.wp v.rp_in v.wp_in room

-- GetEnd keeps the invariant.
pub get_end-IsValid : {b : PacketBuffer} → IsValid b → IsValid (get_end b)
get_end-IsValid {b} v = elim (Option-cases b.pos_read) [
  | inl idle ↦ subst IsValid (sym (get_end_idle b idle)) v
  | inr (i, r) ↦
      let h : b.pos_read_num ≤ count b = Held-of_read b v.held r in
      let lem = get_end_lem v r h in
      subst IsValid (sym lem) (record {
        power = v.power;
        slots = v.slots;
        rp_in = ground (arith, count-lt v, v.rp_in);
        wp_in = v.wp_in;
        read_in = tt;
        write_in = v.write_in;
        fits = v.fits;
        sizes =
            subst (All Sized) (sym (live-get_end v r) ∙ ap live lem)
              (All-drop Sized b.pos_read_num (live b) v.sizes);
        held = tt;
      })
]
