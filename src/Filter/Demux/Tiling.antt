-- ===== src/Filter/Demux/Tiling.antt =====
-- The chunks that cMcliFilters::Action of filter.c cuts from a packet, against its payload.
use native.Mathlib.Decide.{dec_lt}
use vdr_plugin_mcli.Prelude.{
  ℕ, zero, suc, ◌+◌, ◌-◌, ◌≤◌, ◌<◌, ◌≡◌, refl, ap, ◌∙◌, ◌⊎◌, inl, inr, Bool, true, false, List, [],
  ◌∷◌, ltb, min, if◌then◌else◌, arith, All, Bool-cases,
}
use vdr_plugin_mcli.Filter.Demux.{
  Chunk, packet_pusi, adaptation, section_len, section_chunks, payload_chunks, packet_chunks,
}

-- The chunks lie one behind the other from `a` to `e`.
abbrev pub Tiles : ℕ → List Chunk → ℕ → Type 0
Tiles a [] e = a ≡ e
Tiles a (c ∷ cs) e = (c.start ≡ a) × Tiles (a + c.len) cs e

-- A chunk begins a section, and takes all of it that lies in front of `e`.
abbrev pub Begins : (ℕ → ℕ) → ℕ → Chunk → Type 0
Begins mem e c =
    (c.pusi ≡ true) × (0 < c.len) × (c.len ≡ min (section_len mem c.start) (e - c.start))

-- The bytes that one round of the loop takes.
abbrev cut : ℕ → ℕ → ℕ
cut len section = if ltb len section then len else section

cut_bounds :
    (len section : ℕ) → 0 < len → 0 < section → (0 < cut len section) × (cut len section ≤ len)
cut_bounds len section h k = ground arith

section_chunks_end :
    (fuel : ℕ) (mem : ℕ → ℕ) (block len : ℕ) → len ≡ 0 → section_chunks fuel mem block len ≡ []
unfolding section_chunks
section_chunks_end zero mem block len h = refl
section_chunks_end (suc fuel) mem block len h = ground arith

section_chunks_go :
    (fuel : ℕ) (mem : ℕ → ℕ) (block len : ℕ)
    → 0 < len
    → let n = cut len (section_len mem block) in
      section_chunks (suc fuel) mem block len
      ≡ record { start = block; len = n; pusi = true }
        ∷ section_chunks fuel mem (block + n) (len - n)
unfolding section_chunks
section_chunks_go fuel mem block len h = ground arith

-- The fuel `len` is enough: the loop cuts all bytes up to the end `e` into chunks that begin sections.
section_chunks_tile :
    (fuel : ℕ) (mem : ℕ → ℕ) (block len e : ℕ)
    → len ≤ fuel
    → block + len ≡ e
    → Tiles block (section_chunks fuel mem block len) e
      × All (Begins mem e) (section_chunks fuel mem block len)
section_chunks_tile zero mem block len e h end =
    rw (section_chunks_end zero mem block len (omega arith)) (omega arith, tt)
section_chunks_tile (suc fuel) mem block len e h end = elim (dec_lt 0 len) [
  | no done ↦ rw (section_chunks_end (suc fuel) mem block len (omega arith)) (omega arith, tt)
  | yes more ↦
      let n : ℕ = cut len (section_len mem block) in
      let (some_cut, below) = cut_bounds len (section_len mem block) more (omega arith) in
      let (tiles, begins) =
        section_chunks_tile fuel mem (block + n) (len - n) e (omega arith) (omega arith) in
      rw (section_chunks_go fuel mem block len more)
        ((refl, tiles), ((refl, some_cut, ground arith), begins))
]

-- A chunk lies in the payload of the packet at `block`.
abbrev pub Inside : ℕ → Chunk → Type 0
Inside block c = (block + 4 ≤ c.start) × (c.start + c.len ≤ block + 188)

Tiles-Inside :
    (block a : ℕ) (cs : List Chunk) (e : ℕ)
    → block + 4 ≤ a
    → e ≤ block + 188
    → Tiles a cs e
    → (a ≤ e) × All (Inside block) cs
Tiles-Inside block a [] e lo hi t = (omega arith, tt)
Tiles-Inside block a (c ∷ cs) e lo hi t =
    let (le, rest) = Tiles-Inside block (a + c.len) cs e (omega arith) hi t.1 in
    (omega arith, ((omega arith, omega arith), rest))

payload_chunks_plain :
    (mem : ℕ → ℕ) (block len : ℕ)
    → 0 < len
    → payload_chunks false mem block len ≡ record { start = block; len = len; pusi = false } ∷ []
unfolding payload_chunks
payload_chunks_plain mem block len h = ground arith

payload_chunks_none :
    (mem : ℕ → ℕ) (block len : ℕ) → len ≡ 0 → (b : Bool) → payload_chunks b mem block len ≡ []
unfolding payload_chunks
payload_chunks_none mem block len h true = ground arith
payload_chunks_none mem block len h false = ground arith

payload_chunks_stop :
    (mem : ℕ → ℕ) (block len : ℕ) → len ≤ mem block → payload_chunks true mem block len ≡ []
unfolding payload_chunks
payload_chunks_stop mem block len h = ground arith

payload_chunks_start :
    (mem : ℕ → ℕ) (block len : ℕ)
    → mem block < len
    → let rest = len - (mem block + 1) in
      payload_chunks true mem block len
      ≡ record { start = block + 1; len = mem block; pusi = false }
        ∷ section_chunks rest mem (block + 1 + mem block) rest
unfolding payload_chunks
payload_chunks_start mem block len h = ground arith

payload-Inside :
    (mem : ℕ → ℕ) (block base len : ℕ)
    → block + 4 ≤ base
    → (0 < len → base + len ≤ block + 188)
    → (b : Bool) → All (Inside block) (payload_chunks b mem base len)
payload-Inside mem block base len lo hi b = elim (dec_lt 0 len) [
  | no h ↦ rw (payload_chunks_none mem base len (omega arith) b) tt
  | yes h ↦
      let end : base + len ≤ block + 188 = hi h in
      elim b as (λ k. All (Inside block) (payload_chunks k mem base len)) [
        | false ↦ rw (payload_chunks_plain mem base len h) ((lo, end), tt)
        | true ↦ elim (dec_lt (mem base) len) [
          | no k ↦ rw (payload_chunks_stop mem base len (omega arith)) tt
          | yes k ↦
              let rest : ℕ = len - (mem base + 1) in
              let (tiles, begins) =
                section_chunks_tile rest mem (base + 1 + mem base) rest (base + len) (omega arith)
                  (omega arith) in
              let (up_to, covered) =
                Tiles-Inside block (base + 1 + mem base)
                  (section_chunks rest mem (base + 1 + mem base) rest) (base + len) (omega arith)
                  end tiles in
              rw (payload_chunks_start mem base len k) ((omega arith, omega arith), covered)
        ]
      ]
]

-- Every chunk of a packet lies in its payload, whatever the bytes of the packet are.
pub packet_chunks-Inside : (mem : ℕ → ℕ) (block : ℕ) → All (Inside block) (packet_chunks mem block)
unfolding packet_chunks
packet_chunks-Inside mem block =
    payload-Inside mem block (block + 4 + adaptation mem block) (188 - 4 - adaptation mem block)
      (omega arith) (λ h. omega arith) (packet_pusi mem block)

-- For a packet whose adaptation field leaves a payload: with a payload unit start whose pointer
-- lies in the payload, the chunks are the rest of the section before, as long as the pointer says,
-- and behind it chunks that begin sections and cover the payload to its end without a gap, each as
-- long as its section announces or up to the end; with a pointer beyond the payload there is no
-- chunk; without a payload unit start the payload is one chunk.
pub packet_chunks_tile :
    (mem : ℕ → ℕ) (block : ℕ)
    → let base = block + 4 + adaptation mem block in
      adaptation mem block < 184
      → ((packet_pusi mem block ≡ false)
          × (packet_chunks mem block
              ≡ record { start = base; len = block + 188 - base; pusi = false } ∷ []))
        ⊎ ((packet_pusi mem block ≡ true)
            × (block + 188 ≤ base + mem base)
            × (packet_chunks mem block ≡ []))
        ⊎ ((cs : List Chunk) × (packet_pusi mem block ≡ true)
            × (packet_chunks mem block
                ≡ record { start = base + 1; len = mem base; pusi = false } ∷ cs)
            × Tiles (base + 1 + mem base) cs (block + 188)
            × All (Begins mem (block + 188)) cs)
unfolding packet_chunks
packet_chunks_tile mem block h =
    let base : ℕ = block + 4 + adaptation mem block in
    let len : ℕ = 188 - 4 - adaptation mem block in
    elim (Bool-cases (packet_pusi mem block)) [
      | inr plain ↦ inl (
        plain,
        rw plain (
            payload_chunks_plain mem base len (omega arith)
            ∙ ap (λ n. record { start = base; len = n; pusi = false } ∷ []) (omega arith)),
      )
      | inl starts ↦ elim (dec_lt (mem base) len) [
        | no k ↦
            inr (
              inl (starts, omega arith, rw starts (payload_chunks_stop mem base len (omega arith))))
        | yes k ↦
            let rest : ℕ = len - (mem base + 1) in
            let (tiles, begins) =
              section_chunks_tile rest mem (base + 1 + mem base) rest (block + 188) (omega arith)
                (omega arith) in
            inr (
              inr (
                section_chunks rest mem (base + 1 + mem base) rest,
                starts,
                rw starts (payload_chunks_start mem base len k),
                tiles,
                begins,
              ))
      ]
    ]
