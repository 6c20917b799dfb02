-- ===== src/Mcli/Limits.antt =====
-- SetupParse of mcli.c, its service "Set tuner count", and the test on the names of network devices in
-- the service "Reinit".
use vdr_plugin_mcli.Prelude.{
  ℕ, ◌≡◌, refl, Bool, true, false, not, ◌||◌, List, [], ◌∷◌, arith, if◌then◌else◌, take, same_text,
}
use vdr_plugin_mcli.Prelude.Int.{ℤ, pos, negsuc, eq_ℤ}

-- The entries of m_cmd.tuner_type_limit that have a name.
pub record TunerLimits : Type 0 where
  pub dvb_c : ℤ
  pub dvb_t : ℤ
  pub dvb_s : ℤ
  pub dvb_s2 : ℤ

-- What strcasecmp makes of the name of a setting.
pub data Setting : Type 0 where
  dvb_c_setting : Setting
  dvb_t_setting : Setting
  dvb_s_setting : Setting
  dvb_s2_setting : Setting
  other_setting : Setting

-- MCLI_MAX_DEVICES
abbrev pub max_devices : ℤ
max_devices = pos 8

-- The limit of a setting.
abbrev pub limit_of : Setting → TunerLimits → ℤ
limit_of dvb_c_setting l = l.dvb_c
limit_of dvb_t_setting l = l.dvb_t
limit_of dvb_s_setting l = l.dvb_s
limit_of dvb_s2_setting l = l.dvb_s2
limit_of other_setting l = pos 0

-- SetupParse, where `value` is what atoi reads.
pub setup_parse : Setting → ℤ → TunerLimits → Bool × TunerLimits
setup_parse dvb_c_setting value l =
    if eq_ℤ l.dvb_c max_devices then (true, record l { dvb_c = value }) else (false, l)
setup_parse dvb_t_setting value l =
    if eq_ℤ l.dvb_t max_devices then (true, record l { dvb_t = value }) else (false, l)
setup_parse dvb_s_setting value l =
    if eq_ℤ l.dvb_s max_devices then (true, record l { dvb_s = value }) else (false, l)
setup_parse dvb_s2_setting value l =
    if eq_ℤ l.dvb_s2 max_devices then (true, record l { dvb_s2 = value }) else (false, l)
setup_parse other_setting value l = (false, l)

-- if (count < 0) count = MCLI_MAX_DEVICES;
abbrev pub at_least_0 : ℤ → ℤ
at_least_0 (pos n) = pos n
at_least_0 (negsuc n) = max_devices

-- "Set tuner count": the limits and the settings that are stored, in their order.
pub set_tuner_count : TunerLimits → TunerLimits → TunerLimits × List (Setting × ℤ)
set_tuner_count count l =
    let c = at_least_0 count.dvb_c in
    let t = at_least_0 count.dvb_t in
    let s = at_least_0 count.dvb_s in
    let s2 = at_least_0 count.dvb_s2 in
    (
      record l { dvb_c = c; dvb_t = t; dvb_s = s; dvb_s2 = s2 },
      (dvb_c_setting, c) ∷ (dvb_t_setting, t) ∷ (dvb_s_setting, s) ∷ (dvb_s2_setting, s2) ∷ [],
    )

-- Reading stored settings, in their order, by SetupParse.
abbrev pub load : List (Setting × ℤ) → TunerLimits → TunerLimits
load [] l = l
load ((k, v) ∷ stored) l = load stored (setup_parse k v l).1

-- cMenuSetupMcli::Store: the settings that the setup menu stores, in their order.
pub setup_store : TunerLimits → List (Setting × ℤ)
setup_store l =
    (dvb_c_setting, l.dvb_c)
    ∷ (dvb_t_setting, l.dvb_t)
    ∷ (dvb_s_setting, l.dvb_s)
    ∷ (dvb_s2_setting, l.dvb_s2)
    ∷ []

-- The limits of a start without options.
abbrev pub default_limits : TunerLimits
default_limits = record {
  dvb_c = max_devices;
  dvb_t = max_devices;
  dvb_s = max_devices;
  dvb_s2 = max_devices;
}

-- The limits that "Set tuner count" sets are those that a later start without options reads from the
-- settings that it stores.
load-set_tuner_count :
    (count l : TunerLimits)
    → load (set_tuner_count count l).1 default_limits ≡ (set_tuner_count count l).0
unfolding setup_parse set_tuner_count eq_ℤ
load-set_tuner_count count l = refl

-- A later start without options reads the limits that the setup menu stored.
load-setup_store : (l : TunerLimits) → load (setup_store l) default_limits ≡ l
unfolding setup_parse setup_store eq_ℤ
load-setup_store l = refl

-- The test of "Reinit" and REINIT on the name: strncmp (.., "eth", 3) || strncmp (.., "br", 2).
unfoldable pub takes_iface : List ℕ → Bool
takes_iface name =
    not (same_text (take 3 name) (101 ∷ 116 ∷ 104 ∷ []))
    || not (same_text (take 2 name) (98 ∷ 114 ∷ []))

-- The test takes every name: none begins with both prefixes.
takes_iface-all : (name : List ℕ) → takes_iface name ≡ true
unfolding takes_iface same_text
takes_iface-all [] = refl
takes_iface-all (x ∷ name) = ground arith
