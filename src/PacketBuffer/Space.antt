-- ===== src/PacketBuffer/Space.antt =====
-- FindSpace of packetbuffer.c against the regions of the packets that wait.
use vdr_plugin_mcli.Prelude.{
  ℕ, zero, suc, ◌+◌, ◌≤◌, ◌<◌, ◌≡◌, refl, ap, sym, subst, ◌∙◌, ◌≢◌, List, [], ◌∷◌, ◌++◌, some, ◌⊎◌,
  inl, inr, arith, get_or, All,
}
use vdr_plugin_mcli.PacketBuffer.{
  PosData, PacketBuffer, slot, zero_pos, behind, last_slot, space_between, find_space,
}
use vdr_plugin_mcli.PacketBuffer.Live.{advance, live_from, live_from-snoc, count, live}
use vdr_plugin_mcli.PacketBuffer.Valid.{IsValid, last_slot_lem}
use vdr_plugin_mcli.PacketBuffer.Fifo.{count-lt}

-- Each packet begins at `a` or behind it, and behind the one before it.
abbrev pub ChainFrom : ℕ → List PosData → Type 0
ChainFrom a [] = Unit {0}
ChainFrom a (e ∷ es) = (a ≤ e.offset) × ChainFrom (behind e) es

-- The packets lie in the buffer in their order: the ring has not gone round the end of the data buffer.
abbrev pub IsLinear : List PosData → Type 0
IsLinear [] = Unit {0}
IsLinear (e ∷ es) = ChainFrom (behind e) es

-- A place of `size` bytes and a packet share no byte.
abbrev pub Apart : ℕ → ℕ → PosData → Type 0
Apart offset size e = (behind e ≤ offset) ⊎ (offset + size ≤ e.offset)

chain_low : (a c : ℕ) (es : List PosData) → c ≤ a → ChainFrom a es → All (λ e. c ≤ e.offset) es
chain_low a c [] h ch = tt
chain_low a c (e ∷ es) h ch = (omega arith, chain_low (behind e) c es (omega arith) ch.1)

chain_last : (a : ℕ) (xs : List PosData) (l : PosData) → ChainFrom a (xs ++ l ∷ []) → a ≤ l.offset
chain_last a [] l ch = ch.0
chain_last a (x ∷ xs) l ch = omega (arith, chain_last (behind x) xs l ch.1)

chain_high :
    (a : ℕ) (xs : List PosData) (l : PosData)
    → ChainFrom a (xs ++ l ∷ [])
    → All (λ e. behind e ≤ behind l) (xs ++ l ∷ [])
chain_high a [] l ch = omega arith
chain_high a (x ∷ xs) l ch =
    (omega (arith, chain_last (behind x) xs l ch.1), chain_high (behind x) xs l ch.1)

-- The place that is found lies behind the newest packet, or in front of the oldest.
space_between_place :
    (data_size : ℕ) (pr pw : PosData) (size offset : ℕ)
    → space_between data_size pr pw size ≡ some offset
    → (behind pw ≤ offset) ⊎ (offset + size ≤ pr.offset)
unfolding space_between
space_between_place data_size pr pw size offset e = ground arith

-- The packets that wait, from both ends.
live_ends :
    (b : PacketBuffer)
    → IsValid b
    → (live b ≡ [])
      ⊎ ((mid : List PosData) × (back : List PosData) × (b.rp ≢ b.wp)
          × (live b ≡ slot b b.rp ∷ back)
          × (live b ≡ mid ++ slot b (last_slot b) ∷ []))
live_ends b v = go (count b) refl
  where
    go :
        (n : ℕ)
        → count b ≡ n
        → (live b ≡ [])
          ⊎ ((mid : List PosData) × (back : List PosData) × (b.rp ≢ b.wp)
              × (live b ≡ slot b b.rp ∷ back)
              × (live b ≡ mid ++ slot b (last_slot b) ∷ []))
    go zero e = inl (ap (live_from b.pos_buffer b.pos_size b.rp) e)
    go (suc n) e =
        let at : advance b.pos_size b.rp n ≡ last_slot b =
          ground (arith, last_slot_lem v, v.rp_in, v.wp_in) in
        let ne : b.rp ≢ b.wp = λ (q : b.rp ≡ b.wp). ground arith in
        let lt = count-lt v in
        inr (
          live_from b.pos_buffer b.pos_size b.rp n,
          live_from b.pos_buffer b.pos_size (advance b.pos_size b.rp 1) n,
          ne,
          ap (live_from b.pos_buffer b.pos_size b.rp) e,
          ap (live_from b.pos_buffer b.pos_size b.rp) e
              ∙ live_from-snoc b.pos_buffer b.pos_size b.rp n v.rp_in (omega arith)
              ∙ ap
                  (λ i.
                    live_from b.pos_buffer b.pos_size b.rp n ++ get_or b.pos_buffer i zero_pos ∷ [])
                  at,
        )

Apart-of :
    (offset size : ℕ) (es : List PosData) (lo hi : ℕ)
    → All (λ e. lo ≤ e.offset) es
    → All (λ e. behind e ≤ hi) es
    → (hi ≤ offset) ⊎ (offset + size ≤ lo)
    → All (Apart offset size) es
Apart-of offset size [] lo hi l h p = tt
Apart-of offset size (e ∷ es) lo hi l h p = (omega arith, Apart-of offset size es lo hi l.1 h.1 p)

found_between :
    (b : PacketBuffer) (size : ℕ) {offset : ℕ}
    → b.rp ≢ b.wp
    → find_space b size ≡ some offset
    → space_between b.data_size (slot b b.rp) (slot b (last_slot b)) size ≡ some offset
unfolding find_space
found_between b size ne found = ground arith

-- In a valid buffer whose packets lie in order, the place that FindSpace finds shares no byte with
-- any of them.
pub find_space-Apart :
    (b : PacketBuffer) (size : ℕ) {offset : ℕ}
    → IsValid b
    → IsLinear (live b)
    → find_space b size ≡ some offset
    → All (Apart offset size) (live b)
find_space-Apart b size {offset} v linear found = elim (live_ends b v) [
  | inl empty ↦ subst (All (Apart offset size)) (sym empty) tt
  | inr (mid, back, ne, front, rear) ↦
      let pr : PosData = slot b b.rp in
      let pw : PosData = slot b (last_slot b) in
      let chain : ChainFrom pr.offset (pr ∷ back) = (omega arith, subst IsLinear front linear) in
      let place : (behind pw ≤ offset) ⊎ (offset + size ≤ pr.offset) =
        space_between_place b.data_size pr pw size offset (found_between b size ne found) in
      Apart-of offset size (live b) pr.offset (behind pw)
        (subst (All (λ e. pr.offset ≤ e.offset)) (sym front)
          (chain_low pr.offset pr.offset (pr ∷ back) (omega arith) chain))
        (subst (All (λ e. behind e ≤ behind pw)) (sym rear)
          (chain_high pr.offset mid pw (subst (ChainFrom pr.offset) (sym front ∙ rear) chain)))
        place
]

-- Once a packet lies in front of the oldest one, FindSpace asks for room up to the end of the data
-- buffer only: where the new packet reaches the oldest one, its place overlaps it. (The oldest packet
-- holds bytes, and the newest ends in front of it.)
pub find_space_overlaps :
    (b : PacketBuffer) (size : ℕ)
    → b.rp ≢ b.wp
    → behind (slot b (last_slot b)) ≤ (slot b b.rp).offset
    → (slot b (last_slot b)).offset < (slot b b.rp).offset
    → 0 < (slot b b.rp).real_size
    → (slot b b.rp).offset < behind (slot b (last_slot b)) + size
    → behind (slot b (last_slot b)) + size < b.data_size
    → (offset : ℕ) × (find_space b size ≡ some offset) × ¬ Apart offset size (slot b b.rp)
unfolding find_space
find_space_overlaps b size ne before lower holds reaches fits =
    (behind (slot b (last_slot b)), ground arith, λ a. omega arith)
