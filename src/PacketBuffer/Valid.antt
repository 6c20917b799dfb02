-- ===== src/PacketBuffer/Valid.antt =====
-- The invariant of cMyPacketBuffer, and that each method of packetbuffer.c keeps it: the indices stay
-- in the descriptor array, and every descriptor points into the data buffer.
use native.Mathlib.Nat.{mod-eq_of_lt}
use vdr_plugin_mcli.Prelude.{
  ℕ, ◌+◌, ◌-◌, ◌%◌, ◌^◌, bit_and, ◌≤◌, ◌<◌, ◌≡◌, ap, sym, ◌∙◌, ◌≢◌, Option, none, some, inl, inr,
  arith, ◌==◌, if◌then◌else◌, Bool-cases, length, All,
}
use vdr_plugin_mcli.Prelude.Bits.{bit_and_mask, ones_wrap, pow-le-31}
use vdr_plugin_mcli.PacketBuffer.{PosData, PacketBuffer, wrap, last_slot, behind}
use vdr_plugin_mcli.PacketBuffer.Live.{count, live}

-- The region of a descriptor lies in the data buffer.
abbrev pub Fits : ℕ → PosData → Type 0
Fits data_size e = behind e ≤ data_size

abbrev pub Sized : PosData → Type 0
Sized e = e.size ≤ e.real_size

-- A slot that is held is a slot of the array.
abbrev pub Below : ℕ → Option ℕ → Type 0
Below n none = Unit {0}
Below n (some i) = i < n

-- A packet that is held is one of those that wait.
abbrev pub HeldAt : Option ℕ → ℕ → ℕ → Type 0
HeldAt none held waiting = Unit {0}
HeldAt (some i) held waiting = held ≤ waiting

abbrev pub Held : PacketBuffer → Type 0
Held b = HeldAt b.pos_read b.pos_read_num (count b)

pub record IsValid (b : PacketBuffer) : Type 0 where
  pub power : (k : ℕ) × (k ≤ 31) × (b.pos_size ≡ 2 ^ k)
  pub slots : length b.pos_buffer ≡ b.pos_size
  pub rp_in : b.rp < b.pos_size
  pub wp_in : b.wp < b.pos_size
  pub read_in : Below b.pos_size b.pos_read
  pub write_in : Below b.pos_size b.pos_write
  pub fits : All (Fits b.data_size) b.pos_buffer
  pub sizes : All Sized (live b)
  pub held : Held b

-- The mask of a power of 2 is a remainder.
pub wrap-eq-mod : {b : PacketBuffer} → IsValid b → (i : ℕ) → wrap b i ≡ i % b.pos_size
wrap-eq-mod v i =
    let (k, _, e) = v.power in
    ap (λ t. bit_and i (t - 1)) e ∙ bit_and_mask k i ∙ ap (λ t. i % t) (sym e)

-- The slot of the newest packet, with the borrow at 0 that the `int` subtraction makes.
pub last_slot_lem :
    {b : PacketBuffer} → IsValid b → last_slot b ≡ (if b.wp == 0 then b.pos_size - 1 else b.wp - 1)
last_slot_lem {b} v =
    let (k, le, e) = v.power in
    elim (Bool-cases (b.wp == 0)) [
      | inl first ↦
          let z : b.wp ≡ 0 = ground arith in
          let ones : (b.wp + 2 ^ 32 - 1) % 2 ^ 32 ≡ 2 ^ 32 - 1 = omega arith in
          wrap-eq-mod v _ ∙ rw (first, ones, e) (ones_wrap k le)
      | inr later ↦
          let nz : b.wp ≢ 0 = λ z. ground arith in
          let le31 : b.pos_size ≤ 2 ^ 31 = rw e (pow-le-31 k le) in
          let back : (b.wp + 2 ^ 32 - 1) % 2 ^ 32 ≡ b.wp - 1 = omega arith in
          wrap-eq-mod v _ ∙ rw (later, back) (mod-eq_of_lt (omega arith))
    ]
