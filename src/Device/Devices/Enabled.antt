-- ===== src/Device/Devices/Enabled.antt =====
-- The devices of cPluginMcli (mcli.c) behind Stop's loop and behind UpdateDevices.
use vdr_plugin_mcli.Prelude.{
  ℕ, suc, ◌≤◌, ◌<◌, ◌&&◌, not, ltb, ◌≡◌, ◌⊎◌, refl, sym, subst, ◌∙◌, Bool, true, false, Bool-cases,
  inl, inr, Option, none, List, [], ◌∷◌, arith, if◌then◌else◌, get_or, length, All, if_both,
  option_both,
}
use vdr_plugin_mcli.Mcli.Tuners.Inuse.{inuse_at}
use vdr_plugin_mcli.Mcli.Cams.{cam_available}
use vdr_plugin_mcli.Mcli.Cams.Uses.{uses_at}
use vdr_plugin_mcli.Device.{Config, Channel, Device, Pools, World, recv_stop, tell}
use vdr_plugin_mcli.Device.Provide.{is_some, ca_slot}
use vdr_plugin_mcli.Device.Tune.{
  wants_cam, drop_cam, drop_tuner, drop_type, stop, take_cam, resume, set_enable, no_device,
}
use vdr_plugin_mcli.Device.Devices.{disable_all, update_device, wanted_count, update_devices}
use vdr_plugin_mcli.Device.Ownership.{is_none}
use vdr_plugin_mcli.Device.Ownership.Keeps.{set_enable_cases, set_enable-Owned}
use vdr_plugin_mcli.Device.Ownership.Account.{Account, owners}
use vdr_plugin_mcli.Device.Ownership.Steps.{dev_at}
use vdr_plugin_mcli.Device.Devices.Each.{for_devs-each, for_devs-Account}

drop_cam-enable :
    (s : Pools) (d : Device)
    → ((drop_cam s d).1.enable ≡ d.enable) × ((drop_cam s d).1.ca_enable ≡ false)
unfolding drop_cam
drop_cam-enable s d =
    if_both (λ (r : Pools × Device). (r.1.enable ≡ d.enable) × (r.1.ca_enable ≡ false)) d.ca_enable
      _ (s, d) (λ e. (refl, refl)) λ e. (refl, e)

drop_tuner-enable :
    (s : Pools) (d : Device)
    → ((drop_tuner s d).1.enable ≡ d.enable)
      × ((drop_tuner s d).1.ca_enable ≡ d.ca_enable)
      × ((drop_tuner s d).1.tunerref ≡ none)
unfolding drop_tuner
drop_tuner-enable s d =
    option_both
      (λ (r : Pools × Device).
        (r.1.enable ≡ d.enable) × (r.1.ca_enable ≡ d.ca_enable) × (r.1.tunerref ≡ none))
      d.tunerref (s, d) _ (λ e. (refl, refl, e)) λ i e. (refl, refl, refl)

-- A device that is stopped holds nothing.
abbrev pub Idle : Device → Type 0
Idle d = (d.tunerref ≡ none) × (d.ca_enable ≡ false)

stop-Idle : (s : Pools) (d : Device) → Idle (stop s d).1 × ((stop s d).1.enable ≡ d.enable)
unfolding stop
stop-Idle s d =
    let d0 : Device = record (tell recv_stop d) { tuned = false } in
    let r : Pools × Device = drop_cam s d0 in
    let (same, free) = drop_cam-enable s d0 in
    let (same', marked, none_left) = drop_tuner-enable r.0 (drop_type r.1) in
    ((none_left, marked ∙ free), same' ∙ same)

off-Idle : (c : Config) (s : Pools) (d : Device) → Idle (set_enable c false s d).1
unfolding set_enable
off-Idle c s d = (stop-Idle s (record d { enable = false })).0

resume_lem :
    (c : Config) (t : Option ℕ) (s : Pools) (d : Device)
    → let (s', d') = resume c t s d in
      (d'.enable ≡ d.enable) × (d'.tunerref ≡ d.tunerref) × (s'.tuners ≡ s.tuners)
unfolding resume take_cam
resume_lem c t s d =
    let slot = ca_slot d.chan.ca in
    let d0 : Device = record d { fetype = t } in
    if_both
      (λ (r : Pools × Device).
        (r.1.enable ≡ d.enable) × (r.1.tunerref ≡ d.tunerref) × (r.0.tuners ≡ s.tuners))
      (wants_cam c d.chan && not d.ca_enable && is_some (cam_available none slot s.cams.pool))
      (take_cam slot s d0) (s, d0) (λ e. (refl, refl, refl)) λ e. (refl, refl, refl)

set_enable-enable :
    (c : Config) (val : Bool) (s : Pools) (d : Device) → (set_enable c val s d).1.enable ≡ val
unfolding set_enable
set_enable-enable c false s d = (stop-Idle s (record d { enable = false })).1
set_enable-enable c true s d =
    set_enable_cases (λ r. r.1.enable ≡ true) c s d refl
      λ t. (resume_lem c t s (record d { enable = true })).0

-- SetEnable (true) takes no tuner: the pool of tuners and the reference stay as they are, also where the
-- receiver is tuned.
pub set_enable-takes_none :
    (c : Config) (s : Pools) (d : Device)
    → let (s', d') = set_enable c true s d in (s'.tuners ≡ s.tuners) × (d'.tunerref ≡ d.tunerref)
set_enable-takes_none c s d =
    set_enable_cases (λ r. (r.0.tuners ≡ s.tuners) × (r.1.tunerref ≡ d.tunerref)) c s d (refl, refl)
      λ t. let (same, ref, pool) = resume_lem c t s (record d { enable = true }) in (pool, ref)

All-from {ℓ} :
    {A : Type ℓ} (P : A → Type 0) (xs : List A) (e : A)
    → ((k : ℕ) → k < length xs → P (get_or xs k e))
    → All P xs
All-from P [] e h = tt
All-from P (x ∷ xs) e h =
    (h 0 (omega arith), All-from P xs e λ k below. h (suc k) (omega (arith, below)))

Idle-free :
    (ds : List Device)
    → All Idle ds
    → All (λ d. d.ca_enable ≡ is_some d.camref) ds
    → All (λ d. (d.tunerref ≡ none) × (d.camref ≡ none)) ds
Idle-free [] h m = tt
Idle-free (d ∷ ds) ((none_left, free), rest) (m, ms) =
    ((none_left, is_none d.camref (sym m ∙ free)), Idle-free ds rest ms)

owners-none :
    (ds : List Device) (j : ℕ)
    → All (λ d. (d.tunerref ≡ none) × (d.camref ≡ none)) ds
    → (owners (λ d. d.tunerref) ds j ≡ 0) × (owners (λ d. d.camref) ds j ≡ 0)
owners-none [] j h = (refl, refl)
owners-none (d ∷ ds) j ((et, ec), rest) =
    let (rt, rc) = owners-none ds j rest in (rw (et, rt) refl, rw (ec, rc) refl)

held_none : (b : Bool) → (let n : ℕ = if b then 1 else 0 in n ≡ 0) → b ≡ false
held_none b h = ground (arith, h)

-- Behind Stop's loop over the devices, from an account that is right, no tuner is in use, no CAM is in
-- use, and no device holds a tuner or a CAM.
pub disable_all-frees :
    (c : Config) (ch : Channel) (w : World)
    → Account w
    → let w' = disable_all c ch w in
      ((j : ℕ) → inuse_at w'.pools.tuners j ≡ false)
      × ((j : ℕ) → uses_at w'.pools.cams.pool j ≡ 0)
      × All (λ d. (d.tunerref ≡ none) × (d.camref ≡ none)) w'.devs
unfolding disable_all
disable_all-frees c ch w a =
    let w' : World = disable_all c ch w in
    let op : ℕ → Pools → Device → Pools × Device = λ i. set_enable c false in
    let (a', size) =
      for_devs-Account ch op (length w.devs) 0 w
        (λ j rt rc s d o. set_enable-Owned rt rc c false s d o) (omega arith) a in
    let idle : All Idle w'.devs = All-from Idle w'.devs (no_device ch) λ k h.
      for_devs-each ch op (λ j d. Idle d) (length w.devs) 0 k w (λ j s d. off-Idle c s d)
        (omega arith) (omega (arith, h, size)) (omega (arith, h, size)) in
    let free : All (λ d. (d.tunerref ≡ none) × (d.camref ≡ none)) w'.devs =
      Idle-free w'.devs idle a'.marked in
    (
      λ j. held_none (inuse_at w'.pools.tuners j) (a'.tuners j ∙ (owners-none w'.devs j free).0),
      λ j. a'.cams j ∙ (owners-none w'.devs j free).1,
      free,
    )

update_on :
    (c : Config) (receiving : Bool) (s : Pools) (d : Device)
    → (update_device c true receiving s d).1.enable ≡ true
unfolding update_device
update_on c receiving s d =
    if_both (λ (r : Pools × Device). r.1.enable ≡ true) (not d.enable) (set_enable c true s d)
      (s, d) (λ e. set_enable-enable c true s d) λ e. ground (arith, e)

update_off :
    (c : Config) (receiving : Bool) (s : Pools) (d : Device)
    → ((update_device c false receiving s d).1.enable ≡ false) ⊎ (receiving ≡ true)
unfolding update_device
update_off c receiving s d =
    if_both (λ (r : Pools × Device). (r.1.enable ≡ false) ⊎ (receiving ≡ true))
      (d.enable && not receiving) (set_enable c false s d) (s, d)
      (λ e. inl (set_enable-enable c false s d)) λ e. ground (arith, e)

update_device_lem :
    (c : Config) (j n : ℕ) (receiving : Bool) (s : Pools) (d : Device)
    → let d' = (update_device c (ltb j n) receiving s d).1 in
      ((j < n) × (d'.enable ≡ true)) ⊎ ((n ≤ j) × ((d'.enable ≡ false) ⊎ (receiving ≡ true)))
update_device_lem c j n receiving s d = elim (Bool-cases (ltb j n)) [
  | inl h ↦ inl (
    ground (arith, h),
    subst (λ b. (update_device c b receiving s d).1.enable ≡ true) (sym h)
        (update_on c receiving s d),
  )
  | inr h ↦ inr (
    ground (arith, h),
    subst (λ b. ((update_device c b receiving s d).1.enable ≡ false) ⊎ (receiving ≡ true)) (sym h)
        (update_off c receiving s d),
  )
]

-- Behind UpdateDevices, a device in front of as many as TunerCount allows is enabled, and any other is
-- disabled or was receiving.
pub update_devices-enabled :
    (c : Config) (ch : Channel) (receivings : ℕ → Bool) (w : World) (k : ℕ)
    → k < length w.devs
    → let d = dev_at ch k (update_devices c ch receivings w) in
      ((k < wanted_count c w) × (d.enable ≡ true))
      ⊎ ((wanted_count c w ≤ k) × ((d.enable ≡ false) ⊎ (receivings k ≡ true)))
unfolding update_devices
update_devices-enabled c ch receivings w k h =
    let op : ℕ → Pools → Device → Pools × Device =
      λ i. update_device c (ltb i (wanted_count c w)) (receivings i) in
    for_devs-each ch op
      (λ k d.
        ((k < wanted_count c w) × (d.enable ≡ true))
        ⊎ ((wanted_count c w ≤ k) × ((d.enable ≡ false) ⊎ (receivings k ≡ true))))
      (length w.devs) 0 k w (λ j s d. update_device_lem c j (wanted_count c w) (receivings j) s d)
      (omega arith) (omega (arith, h)) h
