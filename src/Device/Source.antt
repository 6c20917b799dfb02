-- ===== src/Device/Source.antt =====
-- What cMcliDevice of device.c makes of the numbers of a channel: the type and the position of its
-- source, and its frequency.
pub mod Numbers
use vdr_plugin_mcli.Prelude.{
  ℕ, zero, suc, ◌+◌, ◌-◌, ◌*◌, ◌%◌, ◌^◌, ltb, ◌==◌, ◌||◌, ◌&&◌, Bool, true, false, Option, none,
  some, if◌then◌else◌, bit_and, bit_or,
}
use vdr_plugin_mcli.Prelude.Int.{ℤ, pos, negsuc}
use vdr_plugin_mcli.Mcli.Tuners.{same_kind}
use vdr_plugin_mcli.Device.{Config, Channel, Parameters, Frontend, unset, qpsk, qam, ofdm}

-- abs (n), for the 16 bits of the source as a signed number.
abbrev pub degrees : ℕ → ℕ
degrees source = let n = source % 65536 in if ltb 32767 n then 65536 - n else n

-- The switch of TranslateTypePos; `none` is -1.
abbrev pub source_type : Config → ℕ → Option ℕ
source_type c t =
    if t == c.st_sat
    then some c.fe.qpsk
    else (if t == c.st_cable
        then some c.fe.qam
        else (if t == c.st_terr then some c.fe.ofdm else none))

-- TranslateTypePos
unfoldable pub translate_type_pos : Config → ℕ → Option ℕ × ℤ
translate_type_pos c source = (
  source_type c (bit_and source c.st_mask),
  if degrees source == 0 then c.fe.no_sat_pos else pos (degrees source + 1800),
)

-- dtp.System () == DVB_SYSTEM_2
abbrev pub is_s2 : Channel → Bool
is_s2 ch = ch.dtp.system == 1

-- An `int` as a 32-bit unsigned number.
abbrev pub to_unsigned : ℤ → ℕ
to_unsigned (pos n) = n % 2 ^ 32
to_unsigned (negsuc n) = (2 ^ 32 - 1 - n % 2 ^ 32) % 2 ^ 32

-- abs (frequency)
abbrev pub abs_ℤ : ℤ → ℕ
abs_ℤ (pos n) = n
abs_ℤ (negsuc n) = n + 1

-- FrequencyToHz with its loop on fuel; `none` is a loop that has not ended.
unfoldable pub frequency_to_hz : ℕ → ℕ → Option ℕ
frequency_to_hz zero f = none
frequency_to_hz (suc fuel) f =
    if ltb 0 f && ltb f 1000000 then frequency_to_hz fuel (f * 1000 % 2 ^ 32) else some f

-- FrequencyToHz (Channel->Frequency ()), for which three rounds are enough.
abbrev pub hertz : Channel → ℕ
hertz ch = elim (frequency_to_hz 3 (to_unsigned ch.frequency)) [ none ↦ 0 | some f ↦ f ]

-- The test of the polarization: v, V, r and R.
abbrev pub is_vertical : ℕ → Bool
is_vertical p = p == 118 || p == 86 || p == 114 || p == 82

-- The voltage for a satellite.
pub sat_voltage : Config → Channel → ℕ
sat_voltage c ch = if is_vertical ch.dtp.polarization then c.voltage_13 else c.voltage_18

-- The modulation and the code rate of DVB-S2 in the numbers of libmcli.
abbrev pub s2_modulation : Config → ℕ → ℕ
s2_modulation c m = if m == c.qpsk then c.qpsk_s2 else (if m == c.psk_8 then c.psk8 else 0)

abbrev pub s2_coderate : Config → ℕ → ℕ
s2_coderate c r =
    if r == c.fec_auto + 1
    then c.fec_auto + 4
    else (if r == c.fec_auto + 2 then c.fec_auto + 5 else r)

pub s2_fec : Config → Parameters → ℕ
s2_fec c dtp = bit_or (s2_coderate c dtp.coderate_h) (s2_modulation c dtp.modulation * 2 ^ 16)

-- m_fep as the switch of SetChannelDevice on m_fetype sets it; `none` is a type it does not know.
unfoldable pub frontend : Config → Channel → Option ℕ → Option Frontend
unfolding s2_fec frequency_to_hz
frontend c ch t =
    if same_kind t (some c.fe.dvbs2) || same_kind t (some c.fe.qpsk)
    then some (
        qpsk (abs_ℤ ch.frequency * 1000 % 2 ^ 32) ch.dtp.inversion (ch.srate * 1000 % 2 ^ 32)
          (if is_s2 ch then s2_fec c ch.dtp else 0))
    else (if same_kind t (some c.fe.qam)
        then some (
            qam (hertz ch) ch.dtp.inversion ch.dtp.coderate_h ch.dtp.modulation
              (ch.srate * 1000 % 2 ^ 32))
        else (if same_kind t (some c.fe.ofdm)
            then some (
                ofdm (hertz ch) ch.dtp.inversion ch.dtp.bandwidth ch.dtp.coderate_h
                  ch.dtp.coderate_l ch.dtp.modulation ch.dtp.transmission ch.dtp.guard
                  ch.dtp.hierarchy)
            else none))
