-- ===== src/PacketBuffer/Multiple/Laws.antt =====
-- What GetStartMultiple of packetbuffer.c returns.
use vdr_plugin_mcli.Prelude.{
  ℕ, suc, ◌+◌, ◌≤◌, ◌<◌, ◌≡◌, refl, ap, ap₂, ◌∙◌, ◌≢◌, List, ◌∷◌, some, false, arith, length, drop,
  take,
}
use vdr_plugin_mcli.PacketBuffer.{PosData, PacketBuffer, slot, wrap, Round, packet, get_end}
use vdr_plugin_mcli.PacketBuffer.Live.{advance, live_from, length-live_from, count, live}
use vdr_plugin_mcli.PacketBuffer.Valid.{IsValid}
use vdr_plugin_mcli.PacketBuffer.Fifo.{wrap-advance, count-lt, live-get_end}
use vdr_plugin_mcli.PacketBuffer.Preserve.{get_end-IsValid}
use vdr_plugin_mcli.PacketBuffer.Get.{live_front, get_start_sub_ready}
use vdr_plugin_mcli.PacketBuffer.Multiple.{stop, multiple_loop, multiple_first, get_start_multiple}
use vdr_plugin_mcli.PacketBuffer.Multiple.Loop.{
  total, run_length, taken, loop_lem, run_length-le, taken-eq-take,
}

first_round :
    (rounds : List Round) (starttime maxsize : ℕ) (b : PacketBuffer)
    → b.invalidate ≡ false
    → b.rp ≢ b.wp
    → get_start_multiple rounds starttime maxsize b
      ≡ multiple_loop b.pos_size maxsize
          (wrap b (b.rp + 1))
          1
          (slot b b.rp).size
          (slot b b.rp).offset
          (packet (slot b b.rp))
          (record b { pos_read = some b.rp })
unfolding get_start_multiple multiple_first
first_round rounds starttime maxsize b fresh ne =
    ground (arith, get_start_sub_ready rounds starttime b.rp b.get_timeout b ne)

multiple_calls :
    (rounds : List Round) (starttime maxsize : ℕ) (b : PacketBuffer) (e : PosData)
    (es : List PosData)
    → IsValid b
    → b.invalidate ≡ false
    → live b ≡ e ∷ es
    → let n = run_length maxsize e.size e.offset es in
      (j : ℕ) × (j < b.pos_size)
      × (suc n ≤ count b)
      × (get_start_multiple rounds starttime maxsize b
          ≡ stop (suc n) (e.size + total (take n es)) (packet e) (record b { pos_read = some j }))
multiple_calls rounds starttime maxsize b e es v fresh waiting =
    let (n, c, front, back) = live_front b e es waiting in go n c front back
  where
    go :
        (n : ℕ)
        → count b ≡ suc n
        → slot b b.rp ≡ e
        → live_from b.pos_buffer b.pos_size (advance b.pos_size b.rp 1) n ≡ es
        → let k = run_length maxsize e.size e.offset es in
          (j : ℕ) × (j < b.pos_size)
          × (suc k ≤ count b)
          × (get_start_multiple rounds starttime maxsize b
              ≡ stop
                  (suc k)
                  (e.size + total (take k es))
                  (packet e)
                  (record b { pos_read = some j }))
    go n c front back =
        let ne : b.rp ≢ b.wp = λ (same : b.rp ≡ b.wp). ground arith in
        let one_on = wrap-advance v b.rp 1 v.rp_in (omega (arith, count-lt v)) in
        let short = run_length-le maxsize e.size e.offset es in
        let long = ap length back in
        let (j, hj, eq) =
          loop_lem v maxsize (packet e) b.pos_size n (advance b.pos_size b.rp 1) 1 e.size e.offset
            b.rp (ground (arith, v.rp_in)) v.rp_in (ground (arith, v.rp_in, v.wp_in))
            (omega (arith, count-lt v)) in
        (
          j,
          hj,
          omega (arith, length-live_from b.pos_buffer b.pos_size (advance b.pos_size b.rp 1) n),
          first_round rounds starttime maxsize b fresh ne
              ∙ ap
                  (λ r.
                    multiple_loop b.pos_size maxsize r 1 (slot b b.rp).size (slot b b.rp).offset
                      (packet (slot b b.rp)) (record b { pos_read = some b.rp }))
                  one_on
              ∙ ap
                  (λ (x : PosData).
                    multiple_loop b.pos_size maxsize (advance b.pos_size b.rp 1) 1 x.size x.offset
                      (packet x) (record b { pos_read = some b.rp }))
                  front
              ∙ eq
              ∙ ap
                  (λ l.
                    stop (1 + run_length maxsize e.size e.offset l)
                      (e.size + total (taken maxsize e.size e.offset l)) (packet e)
                      (record b { pos_read = some j }))
                  back
              ∙ ap₂ (λ k l. stop k (e.size + total l) (packet e) (record b { pos_read = some j }))
                  (omega arith) (taken-eq-take maxsize e.size e.offset es),
        )

holding :
    {b : PacketBuffer} (j k : ℕ)
    → IsValid b
    → j < b.pos_size
    → k ≤ count b
    → IsValid (record b { pos_read = some j; pos_read_num = k })
holding j k v hj hk = record {
  power = v.power;
  slots = v.slots;
  rp_in = v.rp_in;
  wp_in = v.wp_in;
  read_in = hj;
  write_in = v.write_in;
  fits = v.fits;
  sizes = v.sizes;
  held = hk;
}

-- On a valid buffer with packets waiting and no Invalidate outstanding, GetStartMultiple returns at
-- once: the place, the flags and the timestamp of the oldest packet, with the total size of that
-- packet and of the packets that join it. It holds them all: GetEnd removes just these. The buffer
-- stays valid.
pub get_multiple_takes_run :
    (rounds : List Round) (starttime maxsize : ℕ) (b : PacketBuffer) (e : PosData)
    (es : List PosData)
    → IsValid b
    → b.invalidate ≡ false
    → live b ≡ e ∷ es
    → let n = run_length maxsize e.size e.offset es in
      (b' : PacketBuffer) × (get_start_multiple rounds starttime maxsize b
        ≡ some (some (record (packet e) { size = e.size + total (take n es) }), b'))
      × IsValid b'
      × (live b' ≡ e ∷ es)
      × IsValid (get_end b')
      × (live (get_end b') ≡ drop n es)
get_multiple_takes_run rounds starttime maxsize b e es v fresh waiting =
    held_run (multiple_calls rounds starttime maxsize b e es v fresh waiting)
  where
    k : ℕ
    k = run_length maxsize e.size e.offset es

    held_run :
        (j : ℕ) × (j < b.pos_size)
          × (suc k ≤ count b)
          × (get_start_multiple rounds starttime maxsize b
              ≡ stop
                  (suc k)
                  (e.size + total (take k es))
                  (packet e)
                  (record b { pos_read = some j }))
        → (b' : PacketBuffer) × (get_start_multiple rounds starttime maxsize b
            ≡ some (some (record (packet e) { size = e.size + total (take k es) }), b'))
          × IsValid b'
          × (live b' ≡ e ∷ es)
          × IsValid (get_end b')
          × (live (get_end b') ≡ drop k es)
    held_run (j, hj, hk, eq) =
        let v' = holding j (suc k) v hj hk in
        (
          record b { pos_read = some j; pos_read_num = suc k },
          eq,
          v',
          waiting,
          get_end-IsValid v',
          live-get_end {i = j} v' refl ∙ ap (drop (suc k)) waiting,
        )
