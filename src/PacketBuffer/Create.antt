-- ===== src/PacketBuffer/Create.antt =====
-- The constructor of cMyPacketBuffer (packetbuffer.c).
use native.Mathlib.Nat.{add-zero, pow-succ'}
use vdr_plugin_mcli.Prelude.Bits.{pow_pos, pow-add}
use vdr_plugin_mcli.Prelude.{
  ℕ, zero, suc, ◌+◌, ◌*◌, ◌^◌, ◌≤◌, ◌<◌, ◌≡◌, refl, [], false, ◌⊎◌, inl, inr, arith, leb, ◌==◌,
  Bool-cases, length-replicate, All-replicate,
}
use vdr_plugin_mcli.PacketBuffer.{round_up, default_packets, create, zero_pos}
use vdr_plugin_mcli.PacketBuffer.Live.{live}
use vdr_plugin_mcli.PacketBuffer.Valid.{IsValid, Fits}

-- The bound that the masks rely on.
abbrev pub max_packets : ℕ
max_packets = 2 ^ 15

least_step :
    (j k packets : ℕ) → 2 ^ j < packets → (k ≡ suc j) ⊎ (2 ^ k < 2 * packets) → 2 ^ k < 2 * packets
least_step j k packets h (inl e) = rw e (omega (arith, pow-succ' 2 j))
least_step j k packets h (inr l) = l

-- The loop finds the least power of 2 from its start on, if its rounds reach it.
round_up_lem :
    (rounds j packets : ℕ)
    → packets ≤ 2 ^ (j + rounds)
    → (k : ℕ) × (k ≤ j + rounds)
      × (round_up (suc rounds) (2 ^ j) packets ≡ 2 ^ k)
      × (packets ≤ 2 ^ k)
      × ((k ≡ j) ⊎ (2 ^ k < 2 * packets))
unfolding round_up
round_up_lem zero j packets h =
    let h' : packets ≤ 2 ^ j = rw (← add-zero j) h in (j, omega arith, ground arith, h', inl refl)
round_up_lem (suc rounds) j packets h = elim (Bool-cases (leb packets (2 ^ j))) [
  | inl enough ↦ (j, omega arith, ground arith, ground arith, inl refl)
  | inr more ↦
      let double : 2 ^ j * 2 ≡ 2 ^ suc j = omega (arith, pow-succ' 2 j) in
      let up : j + suc rounds ≡ suc j + rounds = omega arith in
      let (k, le, e, enough, least) = round_up_lem rounds (suc j) packets (rw (← up) h) in
      (
        k,
        omega arith,
        rw (more, double) e,
        enough,
        inr (least_step j k packets (ground arith) least),
      )
]

least_slots :
    (k wanted slots : ℕ)
    → slots ≡ 2 ^ k
    → (k ≡ 0) ⊎ (2 ^ k < 2 * wanted)
    → (slots ≡ 1) ⊎ (slots < 2 * wanted)
least_slots k wanted slots e (inl z) = inl (rw (e, z) refl)
least_slots k wanted slots e (inr l) = inr (rw e l)

-- For at most 2^15 wanted packets (by default one for each 2048 bytes) the constructor builds a valid
-- and empty buffer of the given size, whose number of slots is at least the wanted number, and is 1
-- or less than twice that number.
pub create_lem :
    (size packets : ℕ)
    → default_packets size packets ≤ max_packets
    → IsValid (create size packets)
      × (live (create size packets) ≡ [])
      × ((create size packets).data_size ≡ size)
      × (default_packets size packets ≤ (create size packets).pos_size)
      × (((create size packets).pos_size ≡ 1)
          ⊎ ((create size packets).pos_size < 2 * default_packets size packets))
unfolding create
create_lem size packets h =
    let wanted : ℕ = default_packets size packets in
    let (k, le, e, enough, least) = round_up_lem 15 0 wanted h in
    (
      record {
        power = (k, omega arith, e);
        slots = length-replicate _ zero_pos;
        rp_in = rw e (pow_pos k);
        wp_in = rw e (pow_pos k);
        read_in = tt;
        write_in = tt;
        fits = All-replicate (Fits size) _ zero_pos (omega arith);
        sizes = tt;
        held = tt;
      },
      refl,
      refl,
      rw e enough,
      least_slots k wanted _ e least,
    )

grows : (m n : ℕ) → m ≤ m * 2 ^ n
grows m n = let h : 0 < 2 ^ n = pow_pos n in grind arith

round_up_gives_up :
    (rounds j packets : ℕ)
    → 2 ^ (j + rounds) < packets
    → round_up (suc rounds) (2 ^ j) packets ≡ packets
unfolding round_up
round_up_gives_up zero j packets h = let h' : 2 ^ j < packets = rw (← add-zero j) h in ground arith
round_up_gives_up (suc rounds) j packets h =
    let double : 2 ^ j * 2 ≡ 2 ^ suc j = omega (arith, pow-succ' 2 j) in
    let up : j + suc rounds ≡ suc j + rounds = omega arith in
    let grow : 2 ^ j ≤ 2 ^ (j + suc rounds) =
      rw (pow-add j (suc rounds)) (grows (2 ^ j) (suc rounds)) in
    let more : leb packets (2 ^ j) ≡ false = ground arith in
    rw (more, double) (round_up_gives_up rounds (suc j) packets (rw (← up) h))

-- Above 2^15 wanted packets the loop ends before it finds a power of 2: the number of slots is the
-- wanted number itself, so that the mask in place of the remainder is right only by chance.
pub create_large :
    (size packets : ℕ) → max_packets < packets → (create size packets).pos_size ≡ packets
unfolding create
create_large size packets h =
    let nz : (packets == 0) ≡ false = ground arith in rw nz (round_up_gives_up 15 0 packets h)
