-- ===== src/Device/Source/Numbers.antt =====
-- The position of a source and the frequency in Hz, of cMcliDevice (device.c).
use vdr_plugin_mcli.Prelude.{
  ℕ, suc, ◌+◌, ◌-◌, ◌*◌, ◌%◌, ◌^◌, ◌≤◌, ◌<◌, ltb, ◌==◌, ◌&&◌, ◌≡◌, refl, sym, ap, ◌∙◌, ◌⊎◌, inl,
  inr, true, false, some, arith, if◌then◌else◌,
}
use vdr_plugin_mcli.Prelude.Int.{pos}
use vdr_plugin_mcli.Device.{Config}
use vdr_plugin_mcli.Device.Source.{degrees, translate_type_pos, frequency_to_hz}

degrees_low : (k n : ℕ) → n < 32768 → degrees (k * 65536 + n) ≡ n
degrees_low k n h =
    let e : (k * 65536 + n) % 65536 ≡ n = omega (arith, h) in rw e (ground (arith, h))

degrees_high : (k n : ℕ) → 0 < n → n < 32768 → degrees (k * 65536 + (65536 - n)) ≡ n
degrees_high k n h h' =
    let e : (k * 65536 + (65536 - n)) % 65536 ≡ 65536 - n = omega (arith, h, h') in
    rw e (ground (arith, h, h'))

-- TranslateTypePos gives one position to the satellites at the same degree east and west: it drops the
-- sign of the 16 bits of the source.
pub translate_type_pos-mirror :
    (c : Config) (k n : ℕ)
    → 0 < n
    → n < 32768
    → (translate_type_pos c (k * 65536 + n)).1 ≡ (translate_type_pos c (k * 65536 + (65536 - n))).1
unfolding translate_type_pos
translate_type_pos-mirror c k n h h' =
    ap (λ d. if d == 0 then c.fe.no_sat_pos else pos (d + 1800))
      (degrees_low k n h' ∙ sym (degrees_high k n h h'))

-- A round of the loop, and its end.
hz_round :
    (n f : ℕ) → 0 < f → f < 1000000 → frequency_to_hz (suc n) f ≡ frequency_to_hz n (f * 1000)
unfolding frequency_to_hz
hz_round n f h h' =
    let small : f * 1000 % 4294967296 ≡ f * 1000 = omega (arith, h') in
    let test : (ltb 0 f && ltb f 1000000) ≡ true = ground (arith, h, h') in
    ap (λ b. if b then frequency_to_hz n (f * 1000 % 4294967296) else some f) test
    ∙ ap (frequency_to_hz n) small

hz_end : (n f : ℕ) → (f ≡ 0) ⊎ (1000000 ≤ f) → frequency_to_hz (suc n) f ≡ some f
unfolding frequency_to_hz
hz_end n f (inl e) = rw e refl
hz_end n f (inr h) =
    let test : (ltb 0 f && ltb f 1000000) ≡ false = ground (arith, h) in
    ap (λ b. if b then frequency_to_hz n (f * 1000 % 4294967296) else some f) test

hz_range :
    (f : ℕ) → ((f ≡ 0) ⊎ (1000000 ≤ f)) ⊎ (((1000 ≤ f) × (f < 1000000)) ⊎ ((0 < f) × (f < 1000)))
hz_range f = ground arith

-- The loop of FrequencyToHz ends within three rounds of its test, without an overflow: the frequency is
-- multiplied by 1000 at most twice, and the result is 0 or at least 1000000.
pub frequency_to_hz-IsDone :
    (f : ℕ)
    → (r k : ℕ) × (frequency_to_hz 3 f ≡ some r)
      × (r ≡ f * 1000 ^ k)
      × ((f ≡ 0) ⊎ (1000000 ≤ r))
      × (k ≤ 2)
unfolding frequency_to_hz
frequency_to_hz-IsDone f = elim (hz_range f) [
  | inl done ↦ (f, 0, hz_end 2 f done, omega arith, done, omega arith)
  | inr (inl (low, high)) ↦ (
    f * 1000,
    1,
    hz_round 2 f (omega (arith, low)) high ∙ hz_end 1 (f * 1000) (inr (omega (arith, low))),
    omega arith,
    inr (omega (arith, low)),
    omega arith,
  )
  | inr (inr (low, high)) ↦ (
    f * 1000 * 1000,
    2,
    hz_round 2 f low (omega (arith, high))
        ∙ hz_round 1 (f * 1000) (omega (arith, low)) (omega (arith, high))
        ∙ hz_end 0 (f * 1000 * 1000) (inr (omega (arith, low))),
    omega arith,
    inr (omega (arith, low)),
    omega arith,
  )
]
