-- ===== src/Device/SetChannel.antt =====
-- SetChannelDevice of cMcliDevice (device.c).
use vdr_plugin_mcli.Prelude.{
  ℕ, ◌&&◌, ◌||◌, not, ◌==◌, Bool, true, false, Option, none, some, [], ◌∷◌, if◌then◌else◌, get_or,
}
use vdr_plugin_mcli.Prelude.Int.{ℤ}
use vdr_plugin_mcli.Mcli.Tuners.{same_kind, tuner_alloc}
use vdr_plugin_mcli.Device.{
  Config, Channel, Device, DvbPid, Pools, World, unset, recv_tune, recv_pid_add, no_ten, tell,
}
use vdr_plugin_mcli.Device.Source.{translate_type_pos, is_s2, sat_voltage, frontend}
use vdr_plugin_mcli.Device.Provide.{
  is_some, reaches_pos, channel_type, is_tuned_to_transponder, ca_slot, has_cam,
}
use vdr_plugin_mcli.Device.Tune.{drop_tuner, take_cam, wants_cam, put_back, no_device, cam_steal}

-- !strlen (Channel->Name ()) && !strlen (Channel->Provider ())
abbrev pub is_scan : Channel → Bool
is_scan ch = elim ch.name [ [] ↦ elim ch.provider [ [] ↦ true | x ∷ xs ↦ false ] | x ∷ xs ↦ false ]

-- The choice of m_disabletimeout.
abbrev pub set_timeout : Channel → Device → Device
set_timeout ch d = record d {
  disabletimeout = if is_scan ch then 30 else (if d.ca_override then 30 else 10);
}

-- The CAM that SetChannelDevice takes; false if it returns without one.
unfoldable pub tune_cam : Config → Channel → (force : Bool) → Pools → Device → Bool × Pools × Device
unfolding take_cam
tune_cam c ch force s d =
    if not d.ca_override && wants_cam c ch && not d.ca_enable
    then (let (s1, d1) = take_cam (ca_slot ch.ca) s d in
        (d1.ca_enable || ch.ca == 0 || not force, s1, d1))
    else (true, s, d)

-- The type that SetChannelDevice looks for: a device with a tuner of DVB-S2 stays with it.
abbrev pub tune_type : Config → Channel → Device → Option ℕ
tune_type c ch d =
    let t = channel_type c ch in
    if is_some d.tunerref && same_kind t (some c.fe.qpsk) && same_kind d.fetype (some c.fe.dvbs2)
    then some c.fe.dvbs2
    else t

-- TunerFree for a tuner that is not of the type `t` or does not reach the position, and for one that is
-- not of DVB-S2 where the channel is.
unfoldable pub tune_free : Config → Channel → Option ℕ → ℤ → Pools → Device → Pools × Device
unfolding drop_tuner
tune_free c ch t p s d =
    let keeps : Bool = elim d.tunerref [
      | none ↦ true
      | some i ↦ same_kind d.fetype t && reaches_pos c i p s
    ] in
    let (s1, d1) = if keeps then (s, d) else drop_tuner s d in
    if is_s2 ch && not (same_kind d1.fetype (some c.fe.dvbs2)) then drop_tuner s1 d1 else (s1, d1)

-- m_tunerref = TunerAlloc (type, pos)
unfoldable pub take_tuner : Config → Option ℕ → ℤ → Pools → Device → Pools × Device
take_tuner c t p s d =
    let (r, pool) = tuner_alloc c.fe c.sat_lists c.limits t p s.tuners in
    (record s { tuners = pool }, record d { tunerref = r })

-- The part of SetChannelDevice that allocates a tuner for a device without one; m_fetype = type if there
-- is one.
unfoldable pub tune_alloc : Config → Option ℕ → ℤ → Pools → Device → Pools × Device
unfolding take_tuner
tune_alloc c t p s d =
    let (s1, d1) = take_tuner c t p s (record d { tuned = false }) in
    if is_some d1.tunerref
    then (s1, record d1 { fetype = t })
    else (if same_kind t (some c.fe.qpsk)
        then (let (s2, d2) = take_tuner c (some c.fe.dvbs2) p s1 d1 in
            (s2, if is_some d2.tunerref then record d2 { fetype = some c.fe.dvbs2 } else d2))
        else (s1, d1))

-- The receiver is tuned with the parameters that are set, and with a dummy PID if it has none.
abbrev pub dummy_pid : DvbPid
dummy_pid = record { pid = 0; id = 0; priority = 0 }

abbrev pub start_tune : ℕ → Device → Device
start_tune time d =
    let d1 : Device = tell (recv_tune d.fetype d.pos d.voltage d.fep d.pids) d in
    let d2 : Device = elim d.pids [ [] ↦ tell (recv_pid_add dummy_pid) d1 | x ∷ xs ↦ d1 ] in
    record d2 {
      tuned = true;
      ten = record d2.ten { lastseen = time };
      last = time;
      showtuning = true;
    }

-- The part of SetChannelDevice behind the choice of the tuner, for a device that has one.
unfoldable pub tune_receiver : Config → Channel → ℤ → (time : ℕ) → Device → Bool × Device
tune_receiver c ch p time d =
    let d0 : Device = record d { pos = p } in
    if is_tuned_to_transponder ch d0 && not (is_scan ch)
    then (true, record d0 { chan = ch })
    else (let d1 : Device = record d0 { ten = no_ten; voltage = 0; fep = unset; chan = ch } in
        elim (frontend c ch d1.fetype) [
          | none ↦ (false, d1)
          | some f ↦ (
            true,
            start_tune time (record d1 {
              fep = f;
              voltage =
                  if same_kind d1.fetype (some c.fe.dvbs2) || same_kind d1.fetype (some c.fe.qpsk)
                  then sat_voltage c ch
                  else 0;
            }),
          )
        ])

-- The tuner of SetChannelDevice, from the call of TranslateTypePos on.
unfoldable pub tune_tuner : Config → Channel → (time : ℕ) → Pools → Device → Bool × Pools × Device
unfolding tune_free tune_alloc tune_receiver
tune_tuner c ch time s d =
    let p = (translate_type_pos c ch.source).1 in
    let t = tune_type c ch d in
    let (s1, d1) = tune_free c ch t p s d in
    let (s2, d2) = if is_some d1.tunerref then (s1, d1) else tune_alloc c t p s1 d1 in
    if is_some d2.tunerref
    then (let (ok, d3) = tune_receiver c ch p time d2 in (ok, s2, d3))
    else (false, s2, d2)

-- The part of SetChannelDevice behind CheckCAM.
unfoldable pub tune_device :
    Config → Channel → (force : Bool) (time : ℕ) → Pools → Device → Bool × Pools × Device
unfolding tune_cam tune_tuner
tune_device c ch force time s d =
    let (ok, s1, d1) = tune_cam c ch force s d in
    if ok then tune_tuner c ch time s1 d1 else (false, s1, d1)

-- CheckCAM (Channel, true)
unfoldable pub steal_cam :
    Channel → (ℕ → ℤ) → (receivings : ℕ → Bool) (time : ℕ) → World → Device → Bool × World
steal_cam ch prios receivings time w d =
    if has_cam ch w.pools d then (true, w) else cam_steal ch (ca_slot ch.ca) prios receivings time w

-- The part of SetChannelDevice behind the test with CheckCAM, whose answer is `checked`.
unfoldable pub tune_checked :
    Config → Channel → (force : Bool) (time i : ℕ) → Bool × World → Bool × World
tune_checked c ch force time i (checked, w) =
    let (ok, s, d) = tune_device c ch force time w.pools (get_or w.devs i (no_device ch)) in
    if checked then (ok, put_back i s d w) else (false, w)

-- SetChannelDevice of the device with index `i`; `live` is LiveView.
unfoldable pub set_channel_device :
    Config
    → Channel
    → (live : Bool) → (ℕ → ℤ)
    → (receivings : ℕ → Bool) (time : ℕ) → (i : ℕ) → World
    → Bool × World
set_channel_device c ch live prios receivings time i w =
    let d : Device = get_or w.devs i (no_device ch) in
    let force = w.pools.cams.cam_present && live in
    let w0 = put_back i w.pools (set_timeout ch d) w in
    if not d.enable
    then (false, w)
    else (if c.cam_disable && wants_cam c ch
        then (not (c.scr_not_available == 0), w)
        else tune_checked c ch force time i (
            if force then steal_cam ch prios receivings time w0 (set_timeout ch d) else (true, w0)))
