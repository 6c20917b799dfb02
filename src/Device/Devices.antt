-- ===== src/Device/Devices.antt =====
-- What cPluginMcli (mcli.c) does with all its devices: enabling as many as there are tuners, disabling
-- all, starting again, and the answers that it gives about them.
pub mod Each
pub mod Enabled
use vdr_plugin_mcli.Prelude.{
  ℕ, zero, suc, ◌+◌, ◌-◌, ◌&&◌, ◌||◌, not, ltb, ◌==◌, Bool, true, false, Option, none, some, List,
  [], ◌∷◌, ◌++◌, map, if◌then◌else◌, get_or, length, min, replicate,
}
use vdr_plugin_mcli.Prelude.Int.{ℤ}
use vdr_plugin_mcli.Mcli.Tuners.{new_tuners, tuner_count, tuner_count_by_type}
use vdr_plugin_mcli.Mcli.Cams.{CamPool, Cams, is_known}
use vdr_plugin_mcli.Device.{Config, Channel, Device, Pools, World}
use vdr_plugin_mcli.Device.Tune.{set_enable, set_temp_disable, put_back, no_device}

-- A loop over the devices from index `i` on, for `n` of them.
unfoldable pub for_devs :
    Channel → (ℕ → Pools → Device → Pools × Device) → (n i : ℕ) → World → World
for_devs ch op zero i w = w
for_devs ch op (suc n) i w =
    let (s, d) = op i w.pools (get_or w.devs i (no_device ch)) in
    for_devs ch op n (suc i) (put_back i s d w)

abbrev pub for_all_devs : Channel → (ℕ → Pools → Device → Pools × Device) → World → World
for_all_devs ch op w = for_devs ch op (length w.devs) 0 w

-- The loop of Stop and of reconfigure that disables all devices.
unfoldable pub disable_all : Config → Channel → World → World
unfolding for_devs
disable_all c ch w = for_all_devs ch (λ i. set_enable c false) w

-- TempDisableDevices
unfoldable pub temp_disable_devices :
    Channel → (now : Bool) → (receivings : ℕ → Bool) → (time : ℕ) → World → World
unfolding for_devs
temp_disable_devices ch now receivings time w =
    for_all_devs ch
      (λ i s d. let (done, s', d') = set_temp_disable now (receivings i) time s d in (s', d')) w

-- The body of the loop of UpdateDevices, with `c` > 0 as `wanted`.
unfoldable pub update_device : Config → (wanted receiving : Bool) → Pools → Device → Pools × Device
update_device c true receiving s d = if not d.enable then set_enable c true s d else (s, d)
update_device c false receiving s d =
    if d.enable && not receiving then set_enable c false s d else (s, d)

-- How many devices UpdateDevices enables.
abbrev pub wanted_count : Config → World → ℕ
wanted_count c w = min (tuner_count c.fe c.limits w.pools.tuners) (length w.devs)

-- UpdateDevices; its `c` is what is left of the number of devices that are wanted.
unfoldable pub update_devices : Config → Channel → (receivings : ℕ → Bool) → World → World
unfolding for_devs update_device
update_devices c ch receivings w =
    for_all_devs ch (λ i. update_device c (ltb i (wanted_count c w)) (receivings i)) w

-- InitMcli: devices as the constructor leaves them, until there are `tuner_max`.
unfoldable pub init_mcli : (tuner_max : ℕ) → Device → World → World
init_mcli tuner_max d w = record w { devs = w.devs ++ replicate (tuner_max - length w.devs) d }

-- m_cam_pool[i].max = -1
abbrev pub free_cams : Cams → Cams
free_cams cams = record cams { pool = map (λ (cp : CamPool). record cp { max = none }) cams.pool }

-- reconfigure; `d` is a new device.
unfoldable pub reconfigure :
    Config → Channel → (tuner_max : ℕ) → Device → (receivings : ℕ → Bool) → World → World
unfolding disable_all init_mcli update_devices
reconfigure c ch tuner_max d receivings w =
    let w1 = disable_all c ch w in
    let w2 : World = record w1 {
      pools = record { tuners = new_tuners; cams = free_cams w1.pools.cams };
    } in
    update_devices c ch receivings (init_mcli tuner_max d w2)

-- The loop of Ready over the CAMs: none for a CAM that is initialising, otherwise numCi > 0.
pub any_ci : (initialising : ℕ) → List CamPool → Option Bool
any_ci initialising [] = some false
any_ci initialising (cp ∷ pool) =
    let rest = any_ci initialising pool in
    if is_known cp.max
    then (if cp.status == initialising
        then none
        else elim rest [ none ↦ none | some b ↦ some true ])
    else rest

-- numDev > 0
abbrev pub any_input : List Device → Bool
any_input [] = false
any_input (d ∷ ds) = d.enable || any_input ds

-- Ready
pub ready : (initialising : ℕ) → World → Bool
unfolding any_ci
ready initialising w = elim (any_ci initialising w.pools.cams.pool) [
  | none ↦ false
  | some ci ↦ ci && any_input w.devs
]

-- mcli_tuner_count_t, as the service "Get tuner count" fills it.
pub record TunerCounts : Type 0 where
  pub dvb_c : ℕ
  pub dvb_t : ℕ
  pub dvb_s : ℕ
  pub dvb_s2 : ℕ

pub get_tuner_count : Config → World → TunerCounts
get_tuner_count c w = record {
  dvb_c = tuner_count_by_type (some c.fe.qam) w.pools.tuners;
  dvb_t = tuner_count_by_type (some c.fe.ofdm) w.pools.tuners;
  dvb_s = tuner_count_by_type (some c.fe.qpsk) w.pools.tuners;
  dvb_s2 = tuner_count_by_type (some c.fe.dvbs2) w.pools.tuners;
}
