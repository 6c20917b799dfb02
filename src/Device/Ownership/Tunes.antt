-- ===== src/Device/Ownership/Tunes.antt =====
-- SetChannelDevice of cMcliDevice (device.c) keeps the account of the tuners and CAMs of the device.
use vdr_plugin_mcli.Prelude.{
  ℕ, ◌&&◌, ◌||◌, not, ◌==◌, ◌≡◌, refl, Bool, true, false, Option, none, some, List, [], ◌∷◌, arith,
  if◌then◌else◌, if_both, option_both,
}
use vdr_plugin_mcli.Prelude.Int.{ℤ}
use vdr_plugin_mcli.Mcli.Tuners.{same_kind}
use vdr_plugin_mcli.Device.{Config, Channel, Device, DvbPid, Frontend, Pools, unset, no_ten}
use vdr_plugin_mcli.Device.Source.{translate_type_pos, is_s2, sat_voltage, frontend}
use vdr_plugin_mcli.Device.Provide.{is_some, reaches_pos, ca_slot, is_tuned_to_transponder}
use vdr_plugin_mcli.Device.Tune.{drop_tuner, take_cam, wants_cam}
use vdr_plugin_mcli.Device.SetChannel.{
  is_scan, tune_cam, tune_type, tune_free, take_tuner, tune_alloc, start_tune, tune_receiver,
  tune_tuner, tune_device,
}
use vdr_plugin_mcli.Device.Ownership.{
  Owned, is_none, drop_tuner-Owned, take_cam-Owned, take_tuner-Owned, keep-Owned,
}

-- The test of a CAM that is to be taken holds only without one.
unmarked_last : (a b c : Bool) → (a && b && not c) ≡ true → c ≡ false
unmarked_last a b c h = ground (arith, h)

-- The tuner with its type behind the second TunerAlloc.
abbrev pub set_type : Config → Device → Device
set_type c d = if is_some d.tunerref then record d { fetype = some c.fe.dvbs2 } else d

-- The same references, and the same mark of a CAM.
abbrev pub Same : Device → Device → Type 0
Same d d' = (d'.tunerref ≡ d.tunerref) × (d'.camref ≡ d.camref) × (d'.ca_enable ≡ d.ca_enable)

start_tune-Same :
    (time : ℕ) (pids : List DvbPid) (d : Device) → d.pids ≡ pids → Same d (start_tune time d)
start_tune-Same time [] d e = (rw e refl, rw e refl, rw e refl)
start_tune-Same time (x ∷ xs) d e = (rw e refl, rw e refl, rw e refl)

tune_receiver-Same :
    (c : Config) (ch : Channel) (p : ℤ) (time : ℕ) (d : Device)
    → Same d (tune_receiver c ch p time d).1
unfolding tune_receiver
tune_receiver-Same c ch p time d =
    let d0 : Device = record d { pos = p } in
    let d1 : Device = record d0 { ten = no_ten; voltage = 0; fep = unset; chan = ch } in
    let ready : Frontend → Device = λ f. record d1 {
      fep = f;
      voltage =
          if same_kind d1.fetype (some c.fe.dvbs2) || same_kind d1.fetype (some c.fe.qpsk)
          then sat_voltage c ch
          else 0;
    } in
    let rest : Bool × Device = elim (frontend c ch d1.fetype) [
      | none ↦ (false, d1)
      | some f ↦ (true, start_tune time (ready f))
    ] in
    if_both (λ (r : Bool × Device). Same d r.1) (is_tuned_to_transponder ch d0 && not (is_scan ch))
      (true, record d0 { chan = ch }) rest (λ e. (refl, refl, refl))
      λ e.
        option_both (λ (r : Bool × Device). Same d r.1) (frontend c ch d1.fetype) (false, d1)
          (λ f. (true, start_tune time (ready f))) (λ e'. (refl, refl, refl))
          λ f e'. start_tune-Same time d.pids (ready f) refl

module _ (rt rc : ℕ → ℕ) where
  tune_cam-Owned :
      (c : Config) (ch : Channel) (force : Bool) (s : Pools) (d : Device)
      → Owned rt rc (s, d)
      → let (ok, s', d') = tune_cam c ch force s d in Owned rt rc (s', d')
  unfolding tune_cam
  tune_cam-Owned c ch force s d o =
      let r : Pools × Device = take_cam (ca_slot ch.ca) s d in
      if_both (λ (r : Bool × Pools × Device). Owned rt rc (r.1, r.2))
        (not d.ca_override && wants_cam c ch && not d.ca_enable)
        (r.1.ca_enable || ch.ca == 0 || not force, r.0, r.1) (true, s, d)
        (λ e.
          take_cam-Owned rt rc (ca_slot ch.ca) s d
            (unmarked_last (not d.ca_override) (wants_cam c ch) d.ca_enable e) o)
        λ e. o

  tune_free-Owned :
      (c : Config) (ch : Channel) (t : Option ℕ) (p : ℤ) (s : Pools) (d : Device)
      → Owned rt rc (s, d)
      → Owned rt rc (tune_free c ch t p s d)
  unfolding tune_free
  tune_free-Owned c ch t p s d o =
      let keeps : Bool = elim d.tunerref [
        | none ↦ true
        | some i ↦ same_kind d.fetype t && reaches_pos c i p s
      ] in
      let r : Pools × Device = if keeps then (s, d) else drop_tuner s d in
      let o1 : Owned rt rc r =
        if_both (Owned rt rc) keeps (s, d) (drop_tuner s d) (λ e. o)
          (λ e. drop_tuner-Owned rt rc s d o) in
      if_both (Owned rt rc) (is_s2 ch && not (same_kind r.1.fetype (some c.fe.dvbs2)))
        (drop_tuner r.0 r.1) (r.0, r.1) (λ e. drop_tuner-Owned rt rc r.0 r.1 o1) λ e. o1

  set_type-Owned :
      (c : Config) (s : Pools) (d : Device) → Owned rt rc (s, d) → Owned rt rc (s, set_type c d)
  set_type-Owned c s d o =
      if_both (λ d'. Owned rt rc (s, d')) (is_some d.tunerref)
        (record d { fetype = some c.fe.dvbs2 }) d
        (λ e. keep-Owned rt rc s d (record d { fetype = some c.fe.dvbs2 }) refl refl refl o) λ e. o

  tune_alloc-Owned :
      (c : Config) (t : Option ℕ) (p : ℤ) (s : Pools) (d : Device)
      → d.tunerref ≡ none
      → Owned rt rc (s, d)
      → Owned rt rc (tune_alloc c t p s d)
  unfolding tune_alloc
  tune_alloc-Owned c t p s d empty o =
      let d0 : Device = record d { tuned = false } in
      let o0 = keep-Owned rt rc s d d0 refl refl refl o in
      let r : Pools × Device = take_tuner c t p s d0 in
      let o1 = take_tuner-Owned rt rc c t p s d0 empty o0 in
      let r2 : Pools × Device = take_tuner c (some c.fe.dvbs2) p r.0 r.1 in
      if_both (Owned rt rc) (is_some r.1.tunerref) (r.0, record r.1 { fetype = t })
        (if same_kind t (some c.fe.qpsk) then (r2.0, set_type c r2.1) else (r.0, r.1))
        (λ e. keep-Owned rt rc r.0 r.1 (record r.1 { fetype = t }) refl refl refl o1)
        λ e.
          if_both (Owned rt rc) (same_kind t (some c.fe.qpsk)) (r2.0, set_type c r2.1) (r.0, r.1)
            (λ e'.
              set_type-Owned c r2.0 r2.1
                (take_tuner-Owned rt rc c (some c.fe.dvbs2) p r.0 r.1 (is_none r.1.tunerref e) o1))
            λ e'. o1

  tune_receiver-Owned :
      (c : Config) (ch : Channel) (p : ℤ) (time : ℕ) (s : Pools) (d : Device)
      → Owned rt rc (s, d)
      → Owned rt rc (s, (tune_receiver c ch p time d).1)
  tune_receiver-Owned c ch p time s d o =
      let (et, ec, em) = tune_receiver-Same c ch p time d in
      keep-Owned rt rc s d (tune_receiver c ch p time d).1 et ec em o

  tune_tuner-Owned :
      (c : Config) (ch : Channel) (time : ℕ) (s : Pools) (d : Device)
      → Owned rt rc (s, d)
      → let (ok, s', d') = tune_tuner c ch time s d in Owned rt rc (s', d')
  unfolding tune_tuner
  tune_tuner-Owned c ch time s d o =
      let p = (translate_type_pos c ch.source).1 in
      let t = tune_type c ch d in
      let r : Pools × Device = tune_free c ch t p s d in
      let o1 = tune_free-Owned c ch t p s d o in
      let r2 : Pools × Device =
        if is_some r.1.tunerref then (r.0, r.1) else tune_alloc c t p r.0 r.1 in
      let o2 : Owned rt rc r2 =
        if_both (Owned rt rc) (is_some r.1.tunerref) (r.0, r.1) (tune_alloc c t p r.0 r.1) (λ e. o1)
          (λ e. tune_alloc-Owned c t p r.0 r.1 (is_none r.1.tunerref e) o1) in
      let r3 : Bool × Device = tune_receiver c ch p time r2.1 in
      if_both (λ (r : Bool × Pools × Device). Owned rt rc (r.1, r.2)) (is_some r2.1.tunerref)
        (r3.0, r2.0, r3.1) (false, r2.0, r2.1) (λ e. tune_receiver-Owned c ch p time r2.0 r2.1 o2)
        λ e. o2

  pub tune_device-Owned :
      (c : Config) (ch : Channel) (force : Bool) (time : ℕ) (s : Pools) (d : Device)
      → Owned rt rc (s, d)
      → let (ok, s', d') = tune_device c ch force time s d in Owned rt rc (s', d')
  unfolding tune_device
  tune_device-Owned c ch force time s d o =
      let r : Bool × Pools × Device = tune_cam c ch force s d in
      let o1 = tune_cam-Owned c ch force s d o in
      if_both (λ (r : Bool × Pools × Device). Owned rt rc (r.1, r.2)) r.0
        (tune_tuner c ch time r.1 r.2) (false, r.1, r.2)
        (λ e. tune_tuner-Owned c ch time r.1 r.2 o1) λ e. o1
