-- ===== src/Mcli/Service/Bounds.antt =====
-- How many tuners the answer to GETTC (mcli.c) counts.
use vdr_plugin_mcli.Prelude.{
  ℕ, ◌+◌, ◌≤◌, ◌==◌, ◌≡◌, false, List, [], ◌∷◌, arith, length, length-take, take,
}
use vdr_plugin_mcli.Prelude.Int.{ℤ, pos, negsuc, leb_ℤ}
use vdr_plugin_mcli.Mcli.Tuners.{FeTypes}
use vdr_plugin_mcli.Mcli.Service.{
  MenuTuner, MenuNetceiver, NrTuners, all_tuners, get_tuner_info, listed, count_type, capped, gettc,
}

-- The four types have different numbers.
abbrev pub AreDistinct : FeTypes → Type 0
AreDistinct fe =
    (fe.qpsk == fe.qam ≡ false)
    × (fe.qpsk == fe.ofdm ≡ false)
    × (fe.qpsk == fe.dvbs2 ≡ false)
    × (fe.qam == fe.ofdm ≡ false)
    × (fe.qam == fe.dvbs2 ≡ false)
    × (fe.ofdm == fe.dvbs2 ≡ false)

-- A number of tuners, without those below zero.
abbrev pub above_0 : ℤ → ℕ
above_0 (pos n) = n
above_0 (negsuc n) = 0

above_0-capped : (conf : ℤ) (phys : ℕ) → above_0 (capped conf phys) ≤ phys
unfolding leb_ℤ
above_0-capped (pos n) phys = ground arith
above_0-capped (negsuc n) phys = omega arith

count_types :
    (fe : FeTypes) (ts : List MenuTuner)
    → AreDistinct fe
    → count_type fe.qpsk ts + count_type fe.dvbs2 ts + count_type fe.qam ts + count_type fe.ofdm ts
      ≤ length ts
unfolding count_type
count_types fe [] h = omega arith
count_types fe (t ∷ ts) (a, b, c, d, e, f) =
    let rest = count_types fe ts (a, b, c, d, e, f) in ground (arith, rest, a, b, c, d, e, f)

length-listed : (ts : List MenuTuner) → length (listed ts) ≤ length ts
unfolding listed
length-listed [] = omega arith
length-listed (t ∷ ts) = ground (arith, length-listed ts)

-- Where the types have different numbers, the four numbers of GETTC that are not negative are together
-- at most MAX_TUNERS_IN_MENU, whatever the file and the NetCeivers are.
pub gettc-sum :
    (fe : FeTypes) (conf : NrTuners) (now : ℕ) (ns : List MenuNetceiver)
    → AreDistinct fe
    → (let n = gettc fe conf now ns in
        above_0 n.sat + above_0 n.sat_s2 + above_0 n.cable + above_0 n.terr ≤ 16)
unfolding gettc get_tuner_info
gettc-sum fe conf now ns h =
    let ts = all_tuners now ns in
    let shown = listed (take 16 ts) in
    omega (
      arith,
      above_0-capped conf.sat (count_type fe.qpsk shown),
      above_0-capped conf.sat_s2 (count_type fe.dvbs2 shown),
      above_0-capped conf.cable (count_type fe.qam shown),
      above_0-capped conf.terr (count_type fe.ofdm shown),
      count_types fe shown h,
      length-listed (take 16 ts),
      length-take 16 ts,
    )
