-- ===== src/PacketBuffer/Multiple/Loop.antt =====
-- The loop of GetStartMultiple in packetbuffer.c over the packets that join the oldest one.
use vdr_plugin_mcli.Prelude.{
  ℕ, zero, suc, ◌+◌, ◌≤◌, ◌<◌, ◌≡◌, refl, ap, ap₂, ◌∙◌, ◌≢◌, List, [], ◌∷◌, some, Bool, true, false,
  ◌&&◌, inl, inr, arith, leb, ◌==◌, if◌then◌else◌, Bool-cases, length, take,
}
use vdr_plugin_mcli.PacketBuffer.{PosData, PacketBuffer, slot, wrap, Packet, get_start_sub}
use vdr_plugin_mcli.PacketBuffer.Live.{advance, live_from, between}
use vdr_plugin_mcli.PacketBuffer.Valid.{IsValid}
use vdr_plugin_mcli.PacketBuffer.Fifo.{wrap-advance}
use vdr_plugin_mcli.PacketBuffer.Multiple.{stop, multiple_round, multiple_loop}

abbrev pub total : List PosData → ℕ
total [] = 0
total (e ∷ es) = e.size + total es

-- Whether a packet may join a run of `sum` bytes whose last packet begins at `last`.
abbrev pub joins : (maxsize sum last : ℕ) → PosData → Bool
joins maxsize sum last e = last + e.size == e.offset && (leb (sum + e.size) maxsize && e.flags == 0)

-- How many packets in front of a list join a run.
unfoldable pub run_length : (maxsize sum last : ℕ) → List PosData → ℕ
run_length maxsize sum last [] = 0
run_length maxsize sum last (e ∷ es) =
    if joins maxsize sum last e then suc (run_length maxsize (sum + e.size) e.offset es) else 0

unfoldable pub taken : (maxsize sum last : ℕ) → List PosData → List PosData
taken maxsize sum last [] = []
taken maxsize sum last (e ∷ es) =
    if joins maxsize sum last e then e ∷ taken maxsize (sum + e.size) e.offset es else []

module _ {b₀ : PacketBuffer} (v : IsValid b₀) (maxsize : ℕ) (first : Packet) where
  -- A state of the loop: the buffer but for the packet that is held.
  abbrev looking : ℕ → PacketBuffer
  looking i = record b₀ { pos_read = some i }

  loop_go :
      (fuel readp packets sum last i : ℕ)
      → readp ≢ b₀.wp
      → joins maxsize sum last (slot b₀ readp) ≡ true
      → multiple_loop (suc fuel) maxsize readp packets sum last first (looking i)
        ≡ multiple_loop fuel maxsize
            (wrap b₀ (readp + 1))
            (packets + 1)
            (sum + (slot b₀ readp).size)
            (slot b₀ readp).offset
            first
            (looking readp)
  unfolding multiple_loop multiple_round get_start_sub
  loop_go fuel readp packets sum last i ne join = ground arith

  loop_end :
      (fuel readp packets sum last i : ℕ)
      → readp ≡ b₀.wp
      → multiple_loop (suc fuel) maxsize readp packets sum last first (looking i)
        ≡ stop packets sum first (looking i)
  unfolding multiple_loop multiple_round get_start_sub
  loop_end fuel readp packets sum last i same = ground arith

  loop_stop :
      (fuel readp packets sum last i : ℕ)
      → readp ≢ b₀.wp
      → joins maxsize sum last (slot b₀ readp) ≡ false
      → multiple_loop (suc fuel) maxsize readp packets sum last first (looking i)
        ≡ stop packets sum first (looking readp)
  unfolding multiple_loop multiple_round get_start_sub
  loop_stop fuel readp packets sum last i ne join = ground arith

  pub loop_lem :
      (fuel n readp packets sum last i : ℕ)
      → readp < b₀.pos_size
      → i < b₀.pos_size
      → n ≡ between b₀.pos_size readp b₀.wp
      → n < fuel
      → let es = live_from b₀.pos_buffer b₀.pos_size readp n in
        (j : ℕ) × (j < b₀.pos_size)
        × (multiple_loop fuel maxsize readp packets sum last first (looking i)
            ≡ stop
                (packets + run_length maxsize sum last es)
                (sum + total (taken maxsize sum last es))
                first
                (looking j))
  unfolding run_length taken
  loop_lem zero n readp packets sum last i hr hi e lt = absurd (omega arith)
  loop_lem (suc fuel) zero readp packets sum last i hr hi e lt = (
    i,
    hi,
    loop_end fuel readp packets sum last i (ground (arith, v.wp_in))
        ∙ ap₂ (λ k s. stop k s first (looking i)) (omega arith) (omega arith),
  )
  loop_lem (suc fuel) (suc n) readp packets sum last i hr hi e lt =
      let q : PosData = slot b₀ readp in
      let ne : readp ≢ b₀.wp = λ (same : readp ≡ b₀.wp). ground arith in
      let one_on : wrap b₀ (readp + 1) ≡ advance b₀.pos_size readp 1 =
        wrap-advance v readp 1 hr (omega arith) in
      elim (Bool-cases (joins maxsize sum last q)) [
        | inr join ↦ (
          readp,
          hr,
          loop_stop fuel readp packets sum last i ne join
              ∙ rw join (ap₂ (λ k s. stop k s first (looking readp)) (omega arith) (omega arith)),
        )
        | inl join ↦
            let (j, hj, eq) =
              loop_lem fuel n (advance b₀.pos_size readp 1) (packets + 1) (sum + q.size) q.offset
                readp (ground arith) hr (ground (arith, v.wp_in)) (omega arith) in
            (
              j,
              hj,
              loop_go fuel readp packets sum last i ne join
                  ∙ ap
                      (λ r.
                        multiple_loop fuel maxsize r (packets + 1) (sum + q.size) q.offset first
                          (looking readp))
                      one_on
                  ∙ eq
                  ∙ rw join (ap₂ (λ k s. stop k s first (looking j)) (omega arith) (omega arith)),
            )
      ]

pub run_length-le :
    (maxsize sum last : ℕ) (es : List PosData) → run_length maxsize sum last es ≤ length es
unfolding run_length
run_length-le maxsize sum last [] = omega arith
run_length-le maxsize sum last (e ∷ es) =
    ground (arith, run_length-le maxsize (sum + e.size) e.offset es)

pub taken-eq-take :
    (maxsize sum last : ℕ) (es : List PosData)
    → taken maxsize sum last es ≡ take (run_length maxsize sum last es) es
unfolding run_length taken
taken-eq-take maxsize sum last [] = refl
taken-eq-take maxsize sum last (e ∷ es) =
    ground (arith, taken-eq-take maxsize (sum + e.size) e.offset es)
