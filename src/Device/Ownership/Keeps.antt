-- ===== src/Device/Ownership/Keeps.antt =====
-- The operations of cMcliDevice (device.c) keep the account of the tuners and CAMs of the device.
use vdr_plugin_mcli.Prelude.{
  ℕ, ◌-◌, leb, ◌&&◌, ◌||◌, not, ◌≡◌, refl, Bool, true, false, Option, none, some, arith,
  if◌then◌else◌, if_both,
}
use vdr_plugin_mcli.Mcli.Tuners.{same_kind}
use vdr_plugin_mcli.Mcli.Cams.{cam_available}
use vdr_plugin_mcli.Device.{Config, Device, Pools, recv_stop, tell}
use vdr_plugin_mcli.Device.Source.{translate_type_pos}
use vdr_plugin_mcli.Device.Provide.{is_some, channel_type, ca_slot}
use vdr_plugin_mcli.Device.Tune.{
  one_available, drop_cam, drop_type, stop, take_cam, wants_cam, resume, set_enable,
  set_temp_disable,
}
use vdr_plugin_mcli.Device.Ownership.{
  Owned, drop_cam-Owned, drop_tuner-Owned, take_cam-Owned, keep-Owned,
}

-- The test of a CAM that is to be taken holds only without one.
unmarked : (a b : Bool) → (a && not b) ≡ true → b ≡ false
unmarked a b h = ground (arith, h)

unmarked_mid : (a b c : Bool) → (a && not b && c) ≡ true → b ≡ false
unmarked_mid a b c h = ground (arith, h)

-- A property of SetEnable (true): it does nothing but set the mark, or it resumes with some type.
pub set_enable_cases {ℓ} :
    (P : Pools × Device → Type ℓ) (c : Config) (s : Pools) (d : Device)
    → P (s, record d { enable = true })
    → ((t : Option ℕ) → P (resume c t s (record d { enable = true })))
    → P (set_enable c true s d)
unfolding set_enable
set_enable_cases P c s d idle resumed =
    let t = channel_type c d.chan in
    let p = (translate_type_pos c d.chan.source).1 in
    if_both P (is_some d.tunerref) _ _ (λ e. idle)
      λ e.
        if_both P (one_available c t p s) _ _ (λ e. resumed t)
          λ e.
            if_both P (same_kind t (some c.fe.qpsk) && one_available c (some c.fe.dvbs2) p s) _ _
              (λ e. resumed (some c.fe.dvbs2)) λ e. idle

module _ (rt rc : ℕ → ℕ) where
  pub stop-Owned : (s : Pools) (d : Device) → Owned rt rc (s, d) → Owned rt rc (stop s d)
  unfolding stop
  stop-Owned s d o =
      let d0 : Device = record (tell recv_stop d) { tuned = false } in
      let o0 = keep-Owned rt rc s d d0 refl refl refl o in
      let r : Pools × Device = drop_cam s d0 in
      let o1 = drop_cam-Owned rt rc s d0 o0 in
      drop_tuner-Owned rt rc r.0 (drop_type r.1)
        (keep-Owned rt rc r.0 r.1 (drop_type r.1) refl refl refl o1)

  resume-Owned :
      (c : Config) (t : Option ℕ) (s : Pools) (d : Device)
      → Owned rt rc (s, d)
      → Owned rt rc (resume c t s d)
  unfolding resume
  resume-Owned c t s d o =
      let d0 : Device = record d { fetype = t } in
      let o0 = keep-Owned rt rc s d d0 refl refl refl o in
      let slot = ca_slot d.chan.ca in
      let test : Bool =
        wants_cam c d.chan && not d.ca_enable && is_some (cam_available none slot s.cams.pool) in
      let r : Pools × Device = if test then take_cam slot s d0 else (s, d0) in
      let o1 : Owned rt rc r =
        if_both (Owned rt rc) test (take_cam slot s d0) (s, d0)
          (λ e.
            take_cam-Owned rt rc slot s d0
              (unmarked_mid (wants_cam c d.chan) d.ca_enable
                (is_some (cam_available none slot s.cams.pool)) e)
              o0)
          (λ e. o0) in
      keep-Owned rt rc r.0 r.1 (resume c t s d).1 refl refl refl o1

  pub set_enable-Owned :
      (c : Config) (val : Bool) (s : Pools) (d : Device)
      → Owned rt rc (s, d)
      → Owned rt rc (set_enable c val s d)
  unfolding set_enable
  set_enable-Owned c false s d o =
      stop-Owned s (record d { enable = false })
        (keep-Owned rt rc s d (record d { enable = false }) refl refl refl o)
  set_enable-Owned c true s d o =
      let d0 : Device = record d { enable = true } in
      let o0 = keep-Owned rt rc s d d0 refl refl refl o in
      set_enable_cases (Owned rt rc) c s d o0 λ t. resume-Owned c t s d0 o0

  pub set_temp_disable-Owned :
      (now receiving : Bool) (time : ℕ) (s : Pools) (d : Device)
      → Owned rt rc (s, d)
      → let (done, s', d') = set_temp_disable now receiving time s d in Owned rt rc (s', d')
  unfolding set_temp_disable
  set_temp_disable-Owned now receiving time s d o =
      let d0 : Device = record d {
        showtuning = d.showtuning && not (receiving && leb 10 (time - d.ten.lastseen));
      } in
      let o0 = keep-Owned rt rc s d d0 refl refl refl o in
      if_both (λ (r : Bool × Pools × Device). Owned rt rc (r.1, r.2))
        (not receiving && leb d.disabletimeout (time - d.last) || now)
        (true, (stop s d0).0, (stop s d0).1) (false, s, d0) (λ e. stop-Owned s d0 o0) λ e. o0
