-- ===== src/Device/Tune.antt =====
-- How cMcliDevice of device.c takes and gives back tuners and CAMs: SetEnable and SetTempDisable, and
-- CAMSteal of mcli.c.
use vdr_plugin_mcli.Prelude.{
  ℕ, ◌-◌, ◌&&◌, ◌||◌, not, leb, ◌==◌, Bool, true, false, Option, none, some, if◌then◌else◌, get_or,
  set,
}
use vdr_plugin_mcli.Prelude.Int.{ℤ, pos}
use vdr_plugin_mcli.Mcli.Tuners.{same_kind, tuner_available}
use vdr_plugin_mcli.Mcli.Cams.{cam_available, cam_alloc}
use vdr_plugin_mcli.Device.{
  unset, Config, Channel, Device, Pools, World, recv_tune, recv_stop, new_device, tell, give_tuner,
  give_cam,
}
use vdr_plugin_mcli.Device.Source.{translate_type_pos}
use vdr_plugin_mcli.Device.Provide.{is_some, channel_type, ca_slot, find_victim}

-- if (GetCaEnable ()) { SetCaEnable (false); CAMFree (m_camref); m_camref = NULL; }
unfoldable pub drop_cam : Pools → Device → Pools × Device
unfolding give_cam
drop_cam s d =
    if d.ca_enable
    then (give_cam d.camref s, record d { ca_enable = false; camref = none })
    else (s, d)

-- if (m_tunerref) { TunerFree (m_tunerref); m_tunerref = NULL; }
unfoldable pub drop_tuner : Pools → Device → Pools × Device
drop_tuner s d = elim d.tunerref [
  | none ↦ (s, d)
  | some i ↦ (give_tuner i s, record d { tunerref = none })
]

-- m_fetype = -1 behind it, in SetEnable and SetTempDisable.
abbrev pub drop_type : Device → Device
drop_type d = record d { fetype = if is_some d.tunerref then none else d.fetype }

-- What SetEnable (false) and SetTempDisable do to stop: the receiver is stopped, and the CAM and the
-- tuner are given back.
unfoldable pub stop : Pools → Device → Pools × Device
unfolding drop_cam drop_tuner
stop s d =
    let (s1, d1) = drop_cam s (record (tell recv_stop d) { tuned = false }) in
    drop_tuner s1 (drop_type d1)

-- m_camref = CAMAlloc (NULL, slot), and SetCaEnable () if there is one.
unfoldable pub take_cam : Option ℕ → Pools → Device → Pools × Device
take_cam slot s d =
    let (r, pool) = cam_alloc none slot s.cams.pool in
    (
      record s { cams = record s.cams { pool = pool } },
      record d { camref = r; ca_enable = is_some r || d.ca_enable },
    )

-- not (m_cam_disable || (m_debugmask & DEBUG_BIT_Action_SkipTriggerCam))
abbrev pub trigger_cam : Config → Bool
trigger_cam c = not (c.cam_disable || c.skip_trigger)

-- Ca () || triggerCam
abbrev pub wants_cam : Config → Channel → Bool
wants_cam c ch = not (ch.ca == 0) || trigger_cam c

-- SetEnable (true) behind the choice of the type `t`, which the device then tunes with; it takes no tuner.
unfoldable pub resume : Config → Option ℕ → Pools → Device → Pools × Device
unfolding take_cam
resume c t s d =
    let d0 : Device = record d { fetype = t } in
    let slot = ca_slot d.chan.ca in
    let (s1, d1) =
      if wants_cam c d.chan && not d.ca_enable && is_some (cam_available none slot s.cams.pool)
      then take_cam slot s d0
      else (s, d0) in
    (s1, record (tell (recv_tune t d1.pos d1.voltage d1.fep d1.pids) d1) { tuned = true })

-- TunerAvailable for a type alone.
abbrev pub one_available : Config → Option ℕ → ℤ → Pools → Bool
one_available c t p s = is_some (tuner_available c.fe c.sat_lists c.limits t p s.tuners)

-- SetEnable
unfoldable pub set_enable : Config → Bool → Pools → Device → Pools × Device
unfolding stop resume
set_enable c false s d = stop s (record d { enable = false })
set_enable c true s d =
    let d0 : Device = record d { enable = true } in
    let t = channel_type c d.chan in
    let p = (translate_type_pos c d.chan.source).1 in
    if is_some d.tunerref
    then (s, d0)
    else (if one_available c t p s
        then resume c t s d0
        else (if same_kind t (some c.fe.qpsk) && one_available c (some c.fe.dvbs2) p s
            then resume c (some c.fe.dvbs2) s d0
            else (s, d0)))

-- SetTempDisable, with Receiving (true) and the time; a time that lies ahead of the clock is as good as
-- now, since the limits are positive.
unfoldable pub set_temp_disable :
    (now : Bool) (receiving : Bool) (time : ℕ) → Pools → Device → Bool × Pools × Device
unfolding stop
set_temp_disable now receiving time s d =
    let d0 : Device = record d {
      showtuning = d.showtuning && not (receiving && leb 10 (time - d.ten.lastseen));
    } in
    if not receiving && leb d.disabletimeout (time - d.last) || now
    then (let (s1, d1) = stop s d0 in (true, s1, d1))
    else (false, s, d0)

-- The pools and a device of the list after an operation of the device.
abbrev pub put_back : ℕ → Pools → Device → World → World
put_back i s d w = record w { pools = s; devs = set w.devs i d }

-- A device that no list has.
abbrev pub no_device : Channel → Device
no_device ch = new_device ch (pos 0) false 0 unset

-- CAMSteal with force, at the device that is found; without force nothing changes. `receivings` and
-- `time` are what SetTempDisable asks for, and `ch` stands for the channel of no device.
unfoldable pub cam_steal :
    Channel → Option ℕ → (ℕ → ℤ) → (receivings : ℕ → Bool) (time : ℕ) → World → Bool × World
unfolding set_temp_disable
cam_steal ch slot prios receivings time w = elim (find_victim slot prios w.pools 0 w.devs) [
  | none ↦ (false, w)
  | some i ↦
      let (done, s, d) =
        set_temp_disable true (receivings i) time w.pools (get_or w.devs i (no_device ch)) in
      (true, put_back i s d w)
]
