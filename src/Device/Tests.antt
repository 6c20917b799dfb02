-- ===== src/Device/Tests.antt =====
-- Runs of the receiving device (device.c) on small inputs.
mod Rounds
mod Steal
use vdr_plugin_mcli.Prelude.{
  ℕ, zero, suc, ◌+◌, ◌-◌, ◌*◌, ◌≤◌, ◌<◌, ◌≡◌, ◌≢◌, refl, ap, sym, ◌∙◌, append-nil, ◌⊎◌, Bool, true,
  false, Option, none, some, List, [], ◌∷◌, ◌++◌, arith, All, length, drop, find_index, leb,
  if◌then◌else◌,
}
use vdr_plugin_mcli.Prelude.Int.{ℤ, pos, negsuc, eq_ℤ}
use vdr_plugin_mcli.Mcli.Tuners.{
  TunerPool, tuner_satelite_position_lookup, tuner_count_by_type, tuner_available, tuner_alloc,
}
use vdr_plugin_mcli.Mcli.Tuners.Inuse.{inuse_at}
use vdr_plugin_mcli.Mcli.Cams.Uses.{uses_at}
use vdr_plugin_mcli.Device.{Config, Channel, Device, Pools, World, new_device, unset}
use vdr_plugin_mcli.Device.Source.{translate_type_pos, frequency_to_hz, frontend}
use vdr_plugin_mcli.Device.Source.Numbers.{translate_type_pos-mirror}
use vdr_plugin_mcli.Device.Provide.{
  channel_type, reaches_pos, any_available, provides_source, provides_transponder,
  is_tuned_to_transponder,
}
use vdr_plugin_mcli.Device.Tune.{drop_tuner}
use vdr_plugin_mcli.Device.SetChannel.{
  tune_free, take_tuner, tune_alloc, tune_receiver, tune_tuner, set_channel_device,
}
use vdr_plugin_mcli.Device.Stream.{
  RingBuffer, take_shown, take_packet, store_ts, handle_ts_data, get_ts_packet,
}
use vdr_plugin_mcli.Filter.Filters.{put_ts}
use vdr_plugin_mcli.Device.Stream.Sync.{Outcome, take_packet-Outcome, overflow-deletes}
use vdr_plugin_mcli.Device.Devices.{disable_all, update_devices, wanted_count}
use vdr_plugin_mcli.Device.Devices.Enabled.{disable_all-frees, update_devices-enabled}
use vdr_plugin_mcli.Device.Ownership.Account.{Account}
use vdr_plugin_mcli.Device.Ownership.Steps.{tunes, done, next, dev_at, Steps-Account}
use vdr_plugin_mcli.Device.Tuned.{tune_tuner-reaches}
use vdr_plugin_mcli.Device.Tuned.Provided.{provides-tunes}

abbrev config : Config
config = record {
  fe = record { qpsk = 0; qam = 1; ofdm = 2; dvbs2 = 4; no_sat_pos = pos 4095 };
  sat_lists = [];
  limits = λ k. pos 8;
  cam_disable = false;
  skip_trigger = true;
  st_mask = 4278190080;
  st_sat = 1392508928;
  st_cable = 1124073472;
  st_terr = 1409286144;
  voltage_13 = 0;
  voltage_18 = 1;
  qpsk = 0;
  psk_8 = 9;
  qpsk_s2 = 1;
  psk8 = 2;
  fec_auto = 9;
  scr_not_available = 1;
}

-- A channel of a cable network.
abbrev channel : Channel
channel = record {
  name = 97 ∷ [];
  provider = [];
  source = 1124073472;
  ca = 0;
  sid = 1;
  transponder = 346;
  frequency = pos 346000;
  srate = 6900;
  dtp = record {
    system = 0;
    polarization = 0;
    inversion = 2;
    modulation = 5;
    coderate_h = 0;
    coderate_l = 0;
    bandwidth = 0;
    transmission = 0;
    guard = 0;
    hierarchy = 0;
  };
}

abbrev cable : TunerPool
cable = record { kind = some 1; uuid = 97 ∷ []; sat_list_name = []; inuse = false }

abbrev device : Device
device = record (new_device channel (pos 0) true 0 unset) { enable = true }

abbrev pools : Pools
pools = record { tuners = cable ∷ []; cams = record { pool = []; cam_present = false } }

abbrev world : World
world = record { pools = pools; devs = device ∷ [] }

abbrev no_prios : ℕ → ℤ
no_prios i = negsuc 0

abbrev no_receivings : ℕ → Bool
no_receivings i = false

world_tuners : (j : ℕ) → (let n : ℕ = if inuse_at (cable ∷ []) j then 1 else 0 in n ≡ 0)
world_tuners zero = refl
world_tuners (suc j) = refl

world-Account : Account world
world-Account = record { tuners = world_tuners; cams = λ j. refl; marked = (refl, tt) }

-- The world behind a call of SetChannelDevice.
abbrev tuned_world : World
tuned_world = (set_channel_device config channel true no_prios no_receivings 5 0 world).1

Steps-Account_example : Account tuned_world
Steps-Account_example =
    Steps-Account world tuned_world
      (next world tuned_world tuned_world
        (tunes config channel true no_prios no_receivings 5 0 world (omega arith))
        (done tuned_world))
      world-Account

tunes_cable : (tune_tuner config channel 5 pools device).0 ≡ true
unfolding tune_tuner tune_free tune_alloc take_tuner tune_receiver drop_tuner translate_type_pos
    tuner_alloc tuner_available tuner_count_by_type find_index tuner_satelite_position_lookup
    is_tuned_to_transponder frontend frequency_to_hz eq_ℤ
tunes_cable = refl

tune_tuner-reaches_example :
    let (ok, s, d) = tune_tuner config channel 5 pools device in
    (i : ℕ) × (d.tunerref ≡ some i)
    × (reaches_pos config i (translate_type_pos config channel.source).1 s ≡ true)
    × (d.tuned ≡ true)
    × (d.pos ≡ (translate_type_pos config channel.source).1)
    × (d.chan ≡ channel)
tune_tuner-reaches_example = tune_tuner-reaches config channel 5 pools device tunes_cable

cable_provided : provides_transponder config channel pools device ≡ true
unfolding provides_transponder provides_source any_available translate_type_pos tuner_available
    tuner_count_by_type find_index tuner_satelite_position_lookup eq_ℤ
cable_provided = refl

cable_known : channel_type config channel ≢ none
unfolding translate_type_pos
cable_known e = grind (arith, e)

provides-tunes_example : (tune_tuner config channel 5 pools device).0 ≡ true
provides-tunes_example =
    provides-tunes config channel 5 pools device refl cable_provided cable_known

disable_all-frees_example :
    let w = disable_all config channel world in
    ((j : ℕ) → inuse_at w.pools.tuners j ≡ false)
    × ((j : ℕ) → uses_at w.pools.cams.pool j ≡ 0)
    × All (λ d. (d.tunerref ≡ none) × (d.camref ≡ none)) w.devs
disable_all-frees_example = disable_all-frees config channel world world-Account

update_devices-enabled_example :
    let d = dev_at channel 0 (update_devices config channel no_receivings world) in
    ((0 < wanted_count config world) × (d.enable ≡ true))
    ⊎ ((wanted_count config world ≤ 0) × ((d.enable ≡ false) ⊎ (no_receivings 0 ≡ true)))
update_devices-enabled_example =
    update_devices-enabled config channel no_receivings world 0 (omega arith)

-- A ring buffer for 4 bytes that is a list.
abbrev list_put : List ℕ → List ℕ → ℕ × List ℕ
list_put xs b = if leb (length xs) (4 - length b) then (length xs, b ++ xs) else (0, b)

list_bytes-put :
    (xs b : List ℕ)
    → length xs ≤ 4 - length b
    → ((list_put xs b).0 ≡ length xs) × ((list_put xs b).1 ≡ b ++ xs)
list_bytes-put xs b h =
    let fits : leb (length xs) (4 - length b) ≡ true = ground (arith, h) in rw fits (refl, refl)

list_of : Option (List ℕ) → List ℕ
list_of none = []
list_of (some b) = b

unwrap : {b xs : List ℕ} → some b ≡ some xs → b ≡ xs ++ []
unfolding list_of
unwrap {xs = xs} e = ap list_of e ∙ sym (append-nil xs)

abbrev list_ring : RingBuffer
list_ring = record {
  Buffer = List ℕ;
  bytes = λ b. b;
  free = λ b. 4 - length b;
  clear = λ b. [];
  put = list_put;
  get = λ b. some b;
  del = drop;
  bytes-clear = λ b. refl;
  bytes-put = list_bytes-put;
  bytes-get = λ b xs e. ([], unwrap e);
  bytes-del = λ n b xs e h. refl;
}

take_packet-Outcome_example :
    Outcome list_ring 2 71
      (drop 2 (71 ∷ 1 ∷ 5 ∷ 71 ∷ []))
      (take_packet list_ring 2 71 true (71 ∷ 1 ∷ 5 ∷ 71 ∷ []))
take_packet-Outcome_example =
    take_packet-Outcome list_ring 2 71 true (71 ∷ 1 ∷ 5 ∷ 71 ∷ [])
      (λ e. (71 ∷ 1 ∷ 5 ∷ 71 ∷ [], refl, omega arith))

-- A device behind a packet that was delivered, and the ring buffer, which has room for one byte more.
abbrev streaming : Device
streaming = record device { delivered = true; dvr_open = true }

abbrev filled : List ℕ
filled = 71 ∷ 1 ∷ 5 ∷ []

overflows :
    handle_ts_data list_ring 2 (λ i. []) (λ a. 0) (71 ∷ 2 ∷ []) filled streaming
    ≡ some (2, 71 ∷ 2 ∷ [], streaming)
unfolding handle_ts_data store_ts put_ts
overflows = refl

-- The two bytes that came are asked to go, and none is left.
overflow-deletes_example :
    (list_ring.bytes (71 ∷ 2 ∷ []) ≡ 71 ∷ 2 ∷ [])
    × (get_ts_packet list_ring 2 71 (71 ∷ 2 ∷ []) streaming
        ≡ some (
          record { data_ptr = none; delivered = false; buffer = [] },
          record streaming { delivered = false },
        ))
unfolding take_shown
overflow-deletes_example =
    overflow-deletes list_ring 2 71 (λ i. []) (λ a. 0) (71 ∷ 2 ∷ []) filled (71 ∷ 2 ∷ []) streaming
      streaming 2 refl refl refl (omega arith) (omega arith) overflows

-- 19.2 degrees east and west.
translate_type_pos-mirror_example :
    (translate_type_pos config (21248 * 65536 + 192)).1
    ≡ (translate_type_pos config (21248 * 65536 + (65536 - 192))).1
translate_type_pos-mirror_example =
    translate_type_pos-mirror config 21248 192 (omega arith) (omega arith)
