-- ===== src/PacketBuffer/Get.antt =====
-- GetStart and GetEnd of packetbuffer.c.
use vdr_plugin_mcli.Prelude.{
  ℕ, zero, suc, ◌≡◌, refl, ap, ◌∙◌, ◌≢◌, List, [], ◌∷◌, none, some, false, arith, drop,
}
use vdr_plugin_mcli.PacketBuffer.{
  PosData, PacketBuffer, slot, Round, packet, get_start_sub, get_start, get_end,
}
use vdr_plugin_mcli.PacketBuffer.Live.{advance, live_from, count, live}
use vdr_plugin_mcli.PacketBuffer.Valid.{IsValid}
use vdr_plugin_mcli.PacketBuffer.Fifo.{live-get_end}
use vdr_plugin_mcli.PacketBuffer.Preserve.{get_end-IsValid}

-- A ring with packets shows the oldest at rp, and the others behind it.
pub live_front :
    (b : PacketBuffer) (e : PosData) (rest : List PosData)
    → live b ≡ e ∷ rest
    → (n : ℕ) × (count b ≡ suc n)
      × (slot b b.rp ≡ e)
      × (live_from b.pos_buffer b.pos_size (advance b.pos_size b.rp 1) n ≡ rest)
live_front b e rest h = go (count b) refl h
  where
    go :
        (n : ℕ)
        → count b ≡ n
        → live_from b.pos_buffer b.pos_size b.rp n ≡ e ∷ rest
        → (n : ℕ) × (count b ≡ suc n)
          × (slot b b.rp ≡ e)
          × (live_from b.pos_buffer b.pos_size (advance b.pos_size b.rp 1) n ≡ rest)
    go zero c h = cc
    go (suc n) c h = (n, c, cc, cc)

pub get_start_sub_ready :
    (rounds : List Round) (starttime readp timeout : ℕ) (b : PacketBuffer)
    → readp ≢ b.wp
    → get_start_sub rounds starttime readp timeout b
      ≡ some (some (packet (slot b readp)), record b { pos_read = some readp })
unfolding get_start_sub
get_start_sub_ready [] starttime readp timeout b h = ground arith
get_start_sub_ready (r ∷ rounds) starttime readp timeout b h = ground arith

-- On a valid buffer with packets waiting, none held and no Invalidate outstanding, GetStart returns
-- the oldest packet at once and holds it; GetEnd then removes just that packet, and the buffer
-- stays valid throughout.
pub get_takes_oldest :
    (rounds : List Round) (starttime : ℕ) (b : PacketBuffer) (e : PosData) (rest : List PosData)
    → IsValid b
    → b.pos_read ≡ none
    → b.invalidate ≡ false
    → live b ≡ e ∷ rest
    → (b' : PacketBuffer) × (get_start rounds starttime b ≡ some (some (packet e), b'))
      × IsValid b'
      × (live b' ≡ e ∷ rest)
      × IsValid (get_end b')
      × (live (get_end b') ≡ rest)
unfolding get_start
get_takes_oldest rounds starttime b e rest v idle fresh waiting =
    let (n, some_left, front, _) = live_front b e rest waiting in
    let held : PacketBuffer = record b { pos_read_num = 1; pos_read = some b.rp } in
    let v' : IsValid held = record {
      power = v.power;
      slots = v.slots;
      rp_in = v.rp_in;
      wp_in = v.wp_in;
      read_in = v.rp_in;
      write_in = v.write_in;
      fits = v.fits;
      sizes = v.sizes;
      held = omega arith;
    } in
    (
      held,
      ground (
        arith,
        get_start_sub_ready rounds starttime b.rp b.get_timeout (record b { pos_read_num = 1 }),
        front,
      ),
      v',
      waiting,
      get_end-IsValid v',
      live-get_end v' refl ∙ ap (drop 1) waiting,
    )
