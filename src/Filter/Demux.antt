-- ===== src/Filter/Demux.antt =====
-- The part of cMcliFilters::Action in filter.c that cuts the payload of one TS packet into chunks for
-- ProcessChunk. `mem` is the memory that `block` points into, a function of the address. A negative
-- `len` passes none of the tests, as 0 does.
pub mod Tiling
use vdr_plugin_mcli.Prelude.{
  ℕ, zero, suc, ◌+◌, ◌-◌, ◌*◌, ◌/◌, ◌%◌, Bool, true, false, List, [], ◌∷◌, ltb, leb, ◌==◌, min,
  if◌then◌else◌,
}

-- A call of ProcessChunk: the address and the number of bytes, and Pusi.
pub record Chunk : Type 0 where
  pub start : ℕ
  pub len : ℕ
  pub pusi : Bool

-- ((block[1] & PID_MASK_HI) << 8) | block[2]
abbrev pub packet_pid : (ℕ → ℕ) → ℕ → ℕ
packet_pid mem block = mem (block + 1) % 32 * 256 + mem (block + 2)

-- (block[1] & 0x40) >> 6
abbrev pub packet_pusi : (ℕ → ℕ) → ℕ → Bool
packet_pusi mem block = mem (block + 1) / 64 % 2 == 1

-- The length of the adaptation field: ((block[3] & 0x20) >> 5) * (block[4] + 1)
abbrev pub adaptation : (ℕ → ℕ) → ℕ → ℕ
adaptation mem block = mem (block + 3) / 32 % 2 * (mem (block + 4) + 1)

-- The length that a section announces: (((block[1] << 8) | block[2]) & 0xFFF) + 3
abbrev pub section_len : (ℕ → ℕ) → ℕ → ℕ
section_len mem block = (mem (block + 1) * 256 + mem (block + 2)) % 4096 + 3

-- The loop over complete sections and the first chunk of one. The fuel bounds the rounds.
pub section_chunks : ℕ → (ℕ → ℕ) → ℕ → ℕ → List Chunk
section_chunks zero mem block len = []
section_chunks (suc fuel) mem block len =
    let chunklen = if ltb len (section_len mem block) then len else section_len mem block in
    let rest = section_chunks fuel mem (block + chunklen) (len - chunklen) in
    if ltb 0 len then record { start = block; len = chunklen; pusi = true } ∷ rest else []

-- The chunks of a payload of `len` bytes.
pub payload_chunks : Bool → (ℕ → ℕ) → ℕ → ℕ → List Chunk
unfolding section_chunks
payload_chunks true mem block len =
    let pointer = mem block in
    let rest = len - (pointer + 1) in
    if ltb pointer len
    then record { start = block + 1; len = pointer; pusi = false }
      ∷ section_chunks rest mem (block + 1 + (pointer)) rest
    else []
payload_chunks false mem block len =
    if ltb 0 len then record { start = block; len = len; pusi = false } ∷ [] else []

-- The chunks of the packet at `block`.
pub packet_chunks : (ℕ → ℕ) → ℕ → List Chunk
unfolding payload_chunks
packet_chunks mem block =
    let offset = adaptation mem block in
    payload_chunks (packet_pusi mem block) mem (block + 4 + offset) (188 - 4 - offset)
