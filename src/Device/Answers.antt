-- ===== src/Device/Answers.antt =====
-- What cMcliDevice (device.c, device.h) answers about itself: its systems, its type and name, and the
-- numbers of GetAttribute, which is compiled with DEVICE_ATTRIBUTES.
use vdr_plugin_mcli.Prelude.{
  ℕ, ◌+◌, ◌-◌, ◌*◌, ◌^◌, ltb, bit_and, bit_or, Bool, not, Option, none, some, List, [], ◌∷◌,
  if◌then◌else◌,
}
use vdr_plugin_mcli.Mcli.Tuners.{same_kind}
use vdr_plugin_mcli.Device.{Config, Device}

-- ProvidesS2 and NumProvidedSystems
pub provides_s2 : Config → Device → Bool
provides_s2 c d = same_kind d.fetype (some c.fe.dvbs2)

pub num_provided_systems : Config → Device → ℕ
unfolding provides_s2
num_provided_systems c d = if provides_s2 c d then 2 else 1

-- The answers of DeviceType.
pub data TypeName : Type 0 where
  no_name : TypeName
  dvb_c : TypeName
  dvb_t : TypeName
  dvb_s : TypeName
  dvb_s2 : TypeName

-- DeviceType
pub device_type : Config → Device → TypeName
device_type c d =
    if not d.enable
    then no_name
    else (if same_kind d.fetype (some c.fe.qam)
        then dvb_c
        else (if same_kind d.fetype (some c.fe.ofdm)
            then dvb_t
            else (if same_kind d.fetype (some c.fe.qpsk)
                then dvb_s
                else (if same_kind d.fetype (some c.fe.dvbs2) then dvb_s2 else no_name))))

-- DeviceName, "netceiver %d" with CardIndex () + 1; `dec` is the format %d.
pub device_name : (dec : ℕ → List ℕ) (card_index : ℕ) → Device → List ℕ
device_name dec card_index d =
    if not d.enable
    then []
    else 110 ∷ 101 ∷ 116 ∷ 99 ∷ 101 ∷ 105 ∷ 118 ∷ 101 ∷ 114 ∷ 32 ∷ dec (card_index + 1)

-- What GetAttribute reads of m_ten besides the strength, the SNR and the time.
pub record TenStatus : Type 0 where
  pub st : ℕ
  pub ber : ℕ
  pub ucblocks : ℕ
  pub rotor_status : ℕ
  pub slot : ℕ

-- The names of the attributes that are numbers.
pub data Attribute : Type 0 where
  fe_status : Attribute
  fe_signal : Attribute
  fe_snr : Attribute
  fe_ber : Attribute
  fe_unc : Attribute
  fe_type : Attribute
  is_mcli : Attribute
  fe_lastseen : Attribute
  other_attribute : Attribute

-- "fe.status": the slot and the rotor are added to a status that is recent.
abbrev pub status_bits : (time : ℕ) → TenStatus → Device → ℕ
status_bits time t d =
    if ltb time (d.ten.lastseen + 10)
    then bit_or (bit_or t.st (bit_and t.rotor_status 3 * 2 ^ 8)) ((1 + t.slot) * 2 ^ 12)
    else t.st

-- GetAttribute: `none` where it returns -1 and stores 0; the type -1 is the largest number of 64 bits.
pub get_attribute : Attribute → (time : ℕ) → TenStatus → Device → Option ℕ
get_attribute fe_status time t d = some (status_bits time t d)
get_attribute fe_signal time t d = some d.ten.strength
get_attribute fe_snr time t d = some d.ten.snr
get_attribute fe_ber time t d = some t.ber
get_attribute fe_unc time t d = some t.ucblocks
get_attribute fe_type time t d = some (elim d.fetype [ none ↦ 2 ^ 64 - 1 | some k ↦ k ])
get_attribute is_mcli time t d = some 1
get_attribute fe_lastseen time t d = some d.ten.lastseen
get_attribute other_attribute time t d = none
