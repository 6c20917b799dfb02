-- ===== src/Device/Ownership/Switch.antt =====
-- CAMSteal of mcli.c and SetChannelDevice of device.c keep the account of the tuners and CAMs.
use vdr_plugin_mcli.Prelude.{
  ℕ, suc, ◌+◌, ◌<◌, ◌&&◌, not, ◌==◌, ◌≡◌, refl, subst, Bool, true, false, Option, some, List, [],
  ◌∷◌, arith, if◌then◌else◌, get_or, length, length-set, if_both, Bool-cases, inl, inr, option_both,
}
use vdr_plugin_mcli.Prelude.Int.{ℤ}
use vdr_plugin_mcli.Device.{Config, Channel, Device, Pools, World}
use vdr_plugin_mcli.Device.Provide.{has_cam, can_steal, find_victim, ca_slot}
use vdr_plugin_mcli.Device.Tune.{set_temp_disable, put_back, no_device, cam_steal, wants_cam}
use vdr_plugin_mcli.Device.SetChannel.{
  set_timeout, steal_cam, tune_device, tune_checked, set_channel_device,
}
use vdr_plugin_mcli.Device.Ownership.{keep-Owned}
use vdr_plugin_mcli.Device.Ownership.Keeps.{set_temp_disable-Owned}
use vdr_plugin_mcli.Device.Ownership.Tunes.{tune_device-Owned}
use vdr_plugin_mcli.Device.Ownership.Account.{Account, put_back-Account}

some_inj : {k i : ℕ} → some k ≡ some i → k ≡ i
some_inj {k} {i} e = grind (arith, e)

pub find_victim-below :
    (slot : Option ℕ) (prios : ℕ → ℤ) (s : Pools) (k i : ℕ) (ds : List Device)
    → find_victim slot prios s k ds ≡ some i
    → i < k + length ds
unfolding find_victim
find_victim-below slot prios s k i [] e = absurd (grind (arith, e))
find_victim-below slot prios s k i (d ∷ ds) e = elim (Bool-cases (can_steal slot (prios k) s d)) [
  | inl h ↦
      let same : k ≡ i =
        some_inj
          (subst (λ b. (if b then some k else find_victim slot prios s (suc k) ds) ≡ some i) h e) in
      omega (arith, same)
  | inr h ↦ omega (
    arith,
    find_victim-below slot prios s (suc k) i ds
        (subst (λ b. (if b then some k else find_victim slot prios s (suc k) ds) ≡ some i) h e),
  )
]

-- The account behind an operation of the world, which keeps the number of devices.
abbrev After : World → Bool × World → Type 0
After w r = Account r.1 × (length r.1.devs ≡ length w.devs)

cam_steal-After :
    (ch : Channel) (slot : Option ℕ) (prios : ℕ → ℤ) (receivings : ℕ → Bool) (time : ℕ) (w : World)
    → Account w
    → After w (cam_steal ch slot prios receivings time w)
unfolding cam_steal
cam_steal-After ch slot prios receivings time w a =
    let stopped : Bool → ℕ → Pools → Device → Pools × Device = λ receiving i s d. (
      (set_temp_disable true receiving time s d).1,
      (set_temp_disable true receiving time s d).2,
    ) in
    let put : ℕ → Bool × World = λ i.
      let r : Pools × Device = stopped (receivings i) i w.pools (get_or w.devs i (no_device ch)) in
      (true, put_back i r.0 r.1 w) in
    option_both (After w) (find_victim slot prios w.pools 0 w.devs) (false, w) put (λ e. (a, refl))
      λ i e. (
        put_back-Account ch w i (stopped (receivings i) i)
            (omega (arith, find_victim-below slot prios w.pools 0 i w.devs e))
            (λ rt rc s d o. set_temp_disable-Owned rt rc true (receivings i) time s d o) a,
        length-set w.devs i _,
      )

steal_cam-After :
    (ch : Channel) (prios : ℕ → ℤ) (receivings : ℕ → Bool) (time : ℕ) (w : World) (d : Device)
    → Account w
    → After w (steal_cam ch prios receivings time w d)
unfolding steal_cam
steal_cam-After ch prios receivings time w d a =
    if_both (After w) (has_cam ch w.pools d) (true, w)
      (cam_steal ch (ca_slot ch.ca) prios receivings time w) (λ e. (a, refl))
      λ e. cam_steal-After ch (ca_slot ch.ca) prios receivings time w a

tune_checked-Account :
    (c : Config) (ch : Channel) (force : Bool) (time i : ℕ) (r : Bool × World)
    → i < length r.1.devs
    → Account r.1
    → Account (tune_checked c ch force time i r).1
unfolding tune_checked
tune_checked-Account c ch force time i (checked, w) h a =
    let tuned : Pools → Device → Pools × Device =
      λ s d. ((tune_device c ch force time s d).1, (tune_device c ch force time s d).2) in
    let r : Pools × Device = tuned w.pools (get_or w.devs i (no_device ch)) in
    if_both (λ (r : Bool × World). Account r.1) checked
      (
        (tune_device c ch force time w.pools (get_or w.devs i (no_device ch))).0,
        put_back i r.0 r.1 w,
      )
      (false, w)
      (λ e.
        put_back-Account ch w i tuned h
          (λ rt rc s d o. tune_device-Owned rt rc c ch force time s d o) a)
      λ e. a

pub set_channel-Account :
    (c : Config) (ch : Channel) (live : Bool) (prios : ℕ → ℤ) (receivings : ℕ → Bool) (time i : ℕ)
    (w : World)
    → i < length w.devs
    → Account w
    → Account (set_channel_device c ch live prios receivings time i w).1
unfolding set_channel_device
set_channel-Account c ch live prios receivings time i w h a =
    let d : Device = get_or w.devs i (no_device ch) in
    let force = w.pools.cams.cam_present && live in
    let w0 : World = put_back i w.pools (set_timeout ch d) w in
    let a0 : Account w0 =
      put_back-Account ch w i (λ s d. (s, set_timeout ch d)) h
        (λ rt rc s d o. keep-Owned rt rc s d (set_timeout ch d) refl refl refl o) a in
    let r : Bool × World =
      if force then steal_cam ch prios receivings time w0 (set_timeout ch d) else (true, w0) in
    let after : After w0 r =
      if_both (After w0) force (steal_cam ch prios receivings time w0 (set_timeout ch d)) (true, w0)
        (λ e. steal_cam-After ch prios receivings time w0 (set_timeout ch d) a0)
        (λ e. (a0, refl)) in
    let finish : Bool × World = tune_checked c ch force time i r in
    if_both (λ (r : Bool × World). Account r.1) (not d.enable) (false, w)
      (if c.cam_disable && wants_cam c ch then (not (c.scr_not_available == 0), w) else finish)
      (λ e. a)
      λ e.
        if_both (λ (r : Bool × World). Account r.1) (c.cam_disable && wants_cam c ch)
          (not (c.scr_not_available == 0), w) finish (λ e'. a)
          λ e'.
            tune_checked-Account c ch force time i r
              (omega (arith, h, after.1, length-set w.devs i (set_timeout ch d))) after.0
