-- ===== src/Device/Ownership/Pid.antt =====
-- SetPid of device.c keeps the account of the tuners and CAMs of the device.
use vdr_plugin_mcli.Prelude.{
  ℕ, ◌&&◌, ◌||◌, not, ◌==◌, refl, Bool, true, false, List, if◌then◌else◌, if_both, option_both,
  field-keep,
}
use vdr_plugin_mcli.Mcli.Cams.{free_cam}
use vdr_plugin_mcli.Device.{Device, DvbPid, Pools}
use vdr_plugin_mcli.Device.Pids.{
  cam_at, set_cam, decrypts, get_pids, set_trigger_sid, clear_trigger, change_pid, set_pid,
}
use vdr_plugin_mcli.Device.Ownership.{Owned, keep-Owned, keep_pools-Owned}

module _ (rt rc : ℕ → ℕ) where
  set_trigger_sid-Owned :
      (s : Pools) (d : Device) → Owned rt rc (s, d) → Owned rt rc (set_trigger_sid s d, d)
  unfolding set_trigger_sid
  set_trigger_sid-Owned s d o =
      option_both (λ s'. Owned rt rc (s', d)) d.camref s
        (λ i.
          if decrypts s d && d.chan.ca == 0
          then set_cam i (record (cam_at i s) { trigger_sid = d.chan.sid }) s
          else s)
        (λ e. o)
        λ i e.
          if_both (λ s'. Owned rt rc (s', d)) (decrypts s d && d.chan.ca == 0)
            (set_cam i (record (cam_at i s) { trigger_sid = d.chan.sid }) s) s
            (λ e'.
              keep_pools-Owned rt rc s
                (set_cam i (record (cam_at i s) { trigger_sid = d.chan.sid }) s) d (λ j. refl)
                (λ j. field-keep (λ cp. cp.use_count) s.cams.pool i j _ free_cam refl) o)
            λ e'. o

  clear_trigger-Owned :
      (s : Pools) (d : Device) → Owned rt rc (s, d) → Owned rt rc (clear_trigger s d, d)
  unfolding clear_trigger
  clear_trigger-Owned s d o =
      option_both (λ s'. Owned rt rc (s', d)) d.camref _ _ (λ e. o)
        λ i e.
          keep_pools-Owned rt rc s (set_cam i (record (cam_at i s) { trigger = false }) s) d
            (λ j. refl) (λ j. field-keep (λ cp. cp.use_count) s.cams.pool i j _ free_cam refl) o

  change_pid-Owned :
      (pid : ℕ) (on : Bool) (s : Pools) (d : Device)
      → Owned rt rc (s, d)
      → Owned rt rc (change_pid pid on s d)
  unfolding change_pid
  change_pid-Owned pid true s d o =
      keep-Owned rt rc (set_trigger_sid s d) d (change_pid pid true s d).1 refl refl refl
        (set_trigger_sid-Owned s d o)
  change_pid-Owned pid false s d o =
      keep-Owned rt rc (clear_trigger s d) d (change_pid pid false s d).1 refl refl refl
        (clear_trigger-Owned s d o)

  pub set_pid-Owned :
      (pid used : ℕ) (on : Bool) (got : List DvbPid) (time : ℕ) (s : Pools) (d : Device)
      → Owned rt rc (s, d)
      → let (ok, s', d') = set_pid pid used on got time s d in Owned rt rc (s', d')
  unfolding set_pid
  set_pid-Owned pid used on got time s d o =
      let test : Bool = not (pid == 0) && (on || used == 0) in
      let r : Pools × Device = if test then change_pid pid on s d else (s, d) in
      let o1 : Owned rt rc r =
        if_both (Owned rt rc) test (change_pid pid on s d) (s, d)
          (λ e. change_pid-Owned pid on s d o) (λ e. o) in
      let d1 : Device = record (get_pids got r.1) { last = time } in
      if_both (λ (r : Bool × Pools × Device). Owned rt rc (r.1, r.2)) d.enable (true, r.0, d1)
        (false, s, d) (λ e. keep-Owned rt rc r.0 r.1 d1 refl refl refl o1) λ e. o
