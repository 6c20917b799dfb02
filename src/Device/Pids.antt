-- ===== src/Device/Pids.antt =====
-- The PIDs and the section filters of cMcliDevice (device.c): SetPid, OpenFilter and CloseFilter. What
-- recv_pids_get answers is a list of PIDs, whose length is the number that it returns.
use vdr_plugin_mcli.Prelude.{
  ℕ, ◌+◌, ◌-◌, ◌&&◌, ◌||◌, not, leb, ◌==◌, Bool, true, false, Option, none, some, List,
  if◌then◌else◌, get_or, set, length, bit_and,
}
use vdr_plugin_mcli.Prelude.Int.{ℤ, pos, negsuc}
use vdr_plugin_mcli.Mcli.Cams.{CamPool, free_cam}
use vdr_plugin_mcli.Filter.Filters.{Sockets, open_filter, close_filter}
use vdr_plugin_mcli.Device.{Device, DvbPid, Pools, recv_pid_add, recv_pid_del, tell}

-- The entry of a reference into the pool of CAMs, and the pools with one that is changed.
abbrev pub cam_at : ℕ → Pools → CamPool
cam_at i s = get_or s.cams.pool i free_cam

abbrev pub set_cam : ℕ → CamPool → Pools → Pools
set_cam i cp s = record s { cams = record s.cams { pool = set s.cams.pool i cp } }

-- m_camref && m_camref->trigger && (!m_camref->triggerSid || m_camref->triggerSid == m_chan.Sid ())
abbrev pub triggers : Pools → Device → Bool
triggers s d = elim d.camref [
  | none ↦ false
  | some i ↦
      (cam_at i s).trigger
      && ((cam_at i s).trigger_sid == 0 || (cam_at i s).trigger_sid == d.chan.sid)
]

-- The test under which SetPid names the service to the CAM.
abbrev pub decrypts : Pools → Device → Bool
decrypts s d = d.ca_enable && (not (d.chan.ca == 0) || triggers s d)

-- The PID that SetPid adds.
pub new_pid : ℕ → Pools → Device → DvbPid
new_pid pid s d = record {
  pid = pid;
  id = if decrypts s d then d.chan.sid else 0;
  priority = if decrypts s d && leb d.chan.ca 255 then bit_and d.chan.ca 3 else 0;
}

-- m_camref->triggerSid = pi.id, for a channel that is free to air.
unfoldable pub set_trigger_sid : Pools → Device → Pools
set_trigger_sid s d = elim d.camref [
  | none ↦ s
  | some i ↦
      if decrypts s d && d.chan.ca == 0
      then set_cam i (record (cam_at i s) { trigger_sid = d.chan.sid }) s
      else s
]

-- m_camref->trigger = false
unfoldable pub clear_trigger : Pools → Device → Pools
clear_trigger s d = elim d.camref [
  | none ↦ s
  | some i ↦ set_cam i (record (cam_at i s) { trigger = false }) s
]

-- recv_pids_get
abbrev pub get_pids : List DvbPid → Device → Device
get_pids got d = record d { pids = got; mcpidsnum = length got }

-- The body of SetPid under the test of the handle.
unfoldable pub change_pid : ℕ → (on : Bool) → Pools → Device → Pools × Device
unfolding new_pid set_trigger_sid clear_trigger
change_pid pid true s d = (
  set_trigger_sid s d,
  tell (recv_pid_add (new_pid pid s d)) (record d { pidsnum = d.pidsnum + 1 }),
)
change_pid pid false s d =
    (clear_trigger s d, tell (recv_pid_del pid) (record d { pidsnum = d.pidsnum - 1 }))

-- SetPid, with the PID and the users of the handle, what recv_pids_get answers, and the time.
unfoldable pub set_pid :
    (pid used : ℕ) (on : Bool) (got : List DvbPid) (time : ℕ)
    → Pools
    → Device
    → Bool × Pools × Device
unfolding change_pid
set_pid pid used on got time s d =
    let (s1, d1) = if not (pid == 0) && (on || used == 0) then change_pid pid on s d else (s, d) in
    if d.enable then (true, s1, record (get_pids got d1) { last = time }) else (false, s, d)

-- ++ and -- on an `int`.
abbrev pub succ_ℤ : ℤ → ℤ
succ_ℤ (pos n) = pos (n + 1)
succ_ℤ (negsuc n) = if n == 0 then pos 0 else negsuc (n - 1)

abbrev pub pred_ℤ : ℤ → ℤ
pred_ℤ (pos n) = if n == 0 then negsuc 0 else pos (n - 1)
pred_ℤ (negsuc n) = negsuc (n + 1)

-- OpenFilter, with the arguments of OpenFilter of the filters; `none` is -1.
pub open_device_filter :
    (ts_size clocks_per_sec : ℕ)
    → Sockets
    → Bool
    → Option ℕ
    → (pid tid mask : ℕ) → List DvbPid
    → Device
    → Option ℕ × Device
open_device_filter ts_size clocks sockets broken handle pid tid mask got d =
    let (r, fs) = open_filter ts_size clocks sockets broken handle pid tid mask d.filters in
    let added = recv_pid_add (record { pid = pid; id = 0; priority = 0 }) in
    if d.enable
    then (r, record (get_pids got (tell added d)) { filternum = succ_ℤ d.filternum; filters = fs })
    else (none, d)

-- CloseFilter
pub close_device_filter : Sockets → Bool → Option ℕ → List DvbPid → Device → Device
close_device_filter sockets broken handle got d =
    let (r, fs) = close_filter sockets broken handle d.filters in
    let d1 : Device = record d { filternum = pred_ℤ d.filternum; filters = fs } in
    if d.enable
    then elim r [ none ↦ d1 | some pid ↦ get_pids got (tell (recv_pid_del pid) d1) ]
    else d
