-- ===== src/Device/Provide.antt =====
-- The questions that VDR asks of cMcliDevice (device.c): what it provides, and whether there is a CAM.
use vdr_plugin_mcli.Prelude.{
  ℕ, suc, ◌-◌, ◌&&◌, ◌||◌, not, leb, ◌==◌, Bool, true, false, Option, none, some, List, [], ◌∷◌,
  if◌then◌else◌, get_or, bit_and,
}
use vdr_plugin_mcli.Prelude.Int.{ℤ, pos, negsuc, eq_ℤ, leb_ℤ}
use vdr_plugin_mcli.Mcli.Tuners.{
  free_tuner, same_kind, tuner_satelite_position_lookup, tuner_available,
}
use vdr_plugin_mcli.Mcli.Cams.{free_cam, cam_available}
use vdr_plugin_mcli.Device.{Config, Channel, Device, Pools, World}
use vdr_plugin_mcli.Device.Source.{translate_type_pos, is_s2}

-- A pointer that is not NULL.
abbrev pub is_some : Option ℕ → Bool
is_some none = false
is_some (some i) = true

-- TunerAvailable for a type, and if it is FE_QPSK, for FE_DVBS2.
unfoldable pub any_available : Config → Option ℕ → ℤ → Pools → Bool
any_available c t p s =
    is_some (tuner_available c.fe c.sat_lists c.limits t p s.tuners)
    || same_kind t (some c.fe.qpsk)
      && is_some (tuner_available c.fe c.sat_lists c.limits (some c.fe.dvbs2) p s.tuners)

-- type == m_fetype || (type == FE_QPSK && m_fetype == FE_DVBS2)
abbrev pub type_fits : Config → Option ℕ → Device → Bool
type_fits c t d =
    same_kind t d.fetype || same_kind t (some c.fe.qpsk) && same_kind d.fetype (some c.fe.dvbs2)

-- TunerSatelitePositionLookup for the tuner of a reference.
abbrev pub reaches_pos : Config → ℕ → ℤ → Pools → Bool
reaches_pos c i p s =
    tuner_satelite_position_lookup c.fe c.sat_lists p (get_or s.tuners i free_tuner)

-- ProvidesSource
unfoldable pub provides_source : Config → ℕ → Pools → Device → Bool
unfolding any_available
provides_source c source s d =
    let (t, p) = translate_type_pos c source in
    if d.enable
    then elim d.tunerref [ none ↦ false | some i ↦ type_fits c t d && reaches_pos c i p s ]
      || any_available c t p s
    else false

-- The type that a channel asks for.
abbrev pub channel_type : Config → Channel → Option ℕ
channel_type c ch = if is_s2 ch then some c.fe.dvbs2 else (translate_type_pos c ch.source).0

-- ProvidesTransponder
unfoldable pub provides_transponder : Config → Channel → Pools → Device → Bool
unfolding provides_source any_available
provides_transponder c ch s d =
    provides_source c ch.source s d
    && (is_some d.tunerref && type_fits c (channel_type c ch) d
        || any_available c (channel_type c ch) (translate_type_pos c ch.source).1 s)

-- The comparison of IsTunedToTransponder with the channel that the device has a lock on.
pub on_transponder : Channel → Device → Bool
on_transponder ch d =
    d.ten.has_lock
    && d.chan.source == ch.source
    && d.chan.transponder == ch.transponder
    && eq_ℤ d.chan.frequency ch.frequency
    && d.chan.dtp.modulation == ch.dtp.modulation
    && d.chan.srate == ch.srate

-- IsTunedToTransponder
unfoldable pub is_tuned_to_transponder : Channel → Device → Bool
is_tuned_to_transponder ch d = d.enable && d.tuned && on_transponder ch d

-- The slot that Ca (0) of a channel asks for; `none` is -1, any slot.
unfoldable pub ca_slot : ℕ → Option ℕ
ca_slot ca =
    let slot = bit_and ca 3 in if leb ca 255 then some (if slot == 0 then 0 else slot - 1) else none

-- slot == -1 || cp->slot == slot
abbrev pub slot_of : Option ℕ → ℕ → Pools → Bool
slot_of none i s = true
slot_of (some slot) i s = (get_or s.cams.pool i free_cam).slot == slot

-- The part of CheckCAM in front of CAMSteal.
unfoldable pub has_cam : Channel → Pools → Device → Bool
unfolding ca_slot
has_cam ch s d =
    d.ca_override
    || ch.ca == 0
    || elim d.camref [ none ↦ false | some i ↦ slot_of (ca_slot ch.ca) i s ]
    || is_some (cam_available none (ca_slot ch.ca) s.cams.pool)

-- Priority () < 0
abbrev pub is_negative : ℤ → Bool
is_negative (pos n) = false
is_negative (negsuc n) = true

-- The test in the loop of CAMSteal; a reference that is NULL is not looked at without a slot.
abbrev pub can_steal : Option ℕ → ℤ → Pools → Device → Bool
can_steal slot prio s d = is_negative prio && d.ca_enable && elim slot [
  | none ↦ true
  | some k ↦ elim d.camref [ none ↦ false | some i ↦ k == (get_or s.cams.pool i free_cam).slot ]
]

-- The device that CAMSteal finds from index `i` on, with the priorities of the devices.
unfoldable pub find_victim : Option ℕ → (ℕ → ℤ) → Pools → ℕ → List Device → Option ℕ
find_victim slot prios s i [] = none
find_victim slot prios s i (d ∷ ds) =
    if can_steal slot (prios i) s d then some i else find_victim slot prios s (suc i) ds

-- CheckCAM without stealing.
unfoldable pub check_cam : Channel → (ℕ → ℤ) → World → Device → Bool
unfolding has_cam find_victim
check_cam ch prios w d =
    has_cam ch w.pools d || is_some (find_victim (ca_slot ch.ca) prios w.pools 0 w.devs)

-- ProvidesChannel: the answer, and *NeedsDetachReceivers where the code sets it. `idle` is IDLEPRIORITY,
-- `own` the device's Priority () and `receiving` its Receiving (true).
unfoldable pub provides_channel :
    Config
    → Channel
    → (ℕ → ℤ)
    → (priority idle own : ℤ) → (receiving : Bool) → World
    → Device
    → Bool × Option Bool
unfolding check_cam provides_transponder is_tuned_to_transponder
provides_channel c ch prios priority idle own receiving w d =
    let tuned = is_tuned_to_transponder ch d in
    let has_priority = is_negative priority || not (leb_ℤ priority own) in
    if d.enable && check_cam ch prios w d
    then (if provides_transponder c ch w.pools d
        then (if not (leb_ℤ priority idle) && receiving
            then (if tuned then true else has_priority, some (not tuned))
            else (has_priority, some false))
        else (false, some false))
    else (false, none)
