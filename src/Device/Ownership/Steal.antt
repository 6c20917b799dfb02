-- ===== src/Device/Ownership/Steal.antt =====
-- What CAMSteal of mcli.c gains: the CAM of the device that it stops.
use vdr_plugin_mcli.Prelude.{
  ℕ, zero, suc, ◌+◌, ◌-◌, ◌<◌, ◌&&◌, ◌||◌, not, ◌==◌, leb, ◌≡◌, ◌≢◌, refl, sym, ap, subst, ◌∙◌,
  Bool, true, false, Option, none, some, List, [], ◌∷◌, arith, if◌then◌else◌, get_or, length, All,
  All-get_or, Bool-cases, inl, inr, if_both, option_both,
}
use vdr_plugin_mcli.Prelude.Int.{ℤ}
use vdr_plugin_mcli.Mcli.Cams.{Cams, CamPool, free_cam, slot_fits, cam_available, cam_free}
use vdr_plugin_mcli.Mcli.Cams.Uses.{uses_at}
use vdr_plugin_mcli.Mcli.Cams.Room.{InLimit, free-available, available-some}
use vdr_plugin_mcli.Device.{Channel, Device, Pools, World, give_cam, tell, recv_stop}
use vdr_plugin_mcli.Device.Provide.{is_some, is_negative, can_steal, find_victim}
use vdr_plugin_mcli.Device.Tune.{
  drop_cam, drop_tuner, drop_type, stop, set_temp_disable, cam_steal, no_device,
}
use vdr_plugin_mcli.Device.Ownership.Account.{Account, owners}

some_inj : {k i : ℕ} → some k ≡ some i → k ≡ i
some_inj {k} {i} e = grind (arith, e)

-- The device that is found can be stopped.
find_victim-can :
    (slot : Option ℕ) (prios : ℕ → ℤ) (s : Pools) (k i : ℕ) (ds : List Device) (e : Device)
    → find_victim slot prios s k ds ≡ some i
    → (j : ℕ) × (i ≡ k + j) × (j < length ds) × (can_steal slot (prios i) s (get_or ds j e) ≡ true)
unfolding find_victim
find_victim-can slot prios s k i [] e h = absurd (grind (arith, h))
find_victim-can slot prios s k i (d ∷ ds) e h = elim (Bool-cases (can_steal slot (prios k) s d)) [
  | inl c ↦
      let same : k ≡ i =
        some_inj
          (subst (λ b. (if b then some k else find_victim slot prios s (suc k) ds) ≡ some i) c h) in
      (0, omega (arith, same), omega arith, subst (λ n. can_steal slot (prios n) s d ≡ true) same c)
  | inr c ↦
      let (j, at, below, can) =
        find_victim-can slot prios s (suc k) i ds e
          (subst (λ b. (if b then some k else find_victim slot prios s (suc k) ds) ≡ some i) c h) in
      (suc j, omega (arith, at), omega (arith, below), can)
]

has_ref :
    (negative marked : Bool) (slot ref : Option ℕ) (pool : List CamPool)
    → (negative && marked && elim slot [
      | none ↦ true
      | some k ↦ elim ref [ none ↦ false | some i ↦ k == (get_or pool i free_cam).slot ]
    ])
      ≡ true
    → marked ≡ is_some ref
    → (m : ℕ) × (ref ≡ some m)
      × (marked ≡ true)
      × (slot_fits slot (get_or pool m free_cam).slot ≡ true)
has_ref negative marked slot none pool h e = absurd (grind (arith, h, e))
has_ref negative marked none (some m) pool h e = (m, refl, e, refl)
has_ref negative marked (some k) (some m) pool h e = (m, refl, e, ground (arith, h))

-- It has a CAM, of the slot.
can_steal-cam :
    (slot : Option ℕ) (prio : ℤ) (s : Pools) (d : Device)
    → can_steal slot prio s d ≡ true
    → d.ca_enable ≡ is_some d.camref
    → (m : ℕ) × (d.camref ≡ some m)
      × (d.ca_enable ≡ true)
      × (slot_fits slot (get_or s.cams.pool m free_cam).slot ≡ true)
can_steal-cam slot prio s d h e =
    has_ref (is_negative prio) d.ca_enable slot d.camref s.cams.pool h e

drop_tuner-cams : (s : Pools) (d : Device) → (drop_tuner s d).0.cams ≡ s.cams
unfolding drop_tuner
drop_tuner-cams s d =
    option_both (λ (r : Pools × Device). r.0.cams ≡ s.cams) d.tunerref _ _ (λ e. refl) λ i e. refl

drop_cam-cams :
    (s : Pools) (d : Device) (i : ℕ)
    → d.ca_enable ≡ true
    → d.camref ≡ some i
    → (drop_cam s d).0.cams.pool ≡ (cam_free i s.cams.pool).1
unfolding drop_cam give_cam
drop_cam-cams s d i e c = rw (e, c) refl

-- Stopping a device that has a CAM gives it back.
stop-cams :
    (s : Pools) (d : Device) (i : ℕ)
    → d.ca_enable ≡ true
    → d.camref ≡ some i
    → (stop s d).0.cams.pool ≡ (cam_free i s.cams.pool).1
unfolding stop
stop-cams s d i e c =
    let d0 : Device = record (tell recv_stop d) { tuned = false } in
    let r : Pools × Device = drop_cam s d0 in
    ap (λ (u : Cams). u.pool) (drop_tuner-cams r.0 (drop_type r.1)) ∙ drop_cam-cams s d0 i e c

disable-cams :
    (receiving : Bool) (time : ℕ) (s : Pools) (d : Device) (i : ℕ)
    → d.ca_enable ≡ true
    → d.camref ≡ some i
    → (set_temp_disable true receiving time s d).1.cams.pool ≡ (cam_free i s.cams.pool).1
unfolding set_temp_disable
disable-cams receiving time s d i e c =
    let d0 : Device = record d {
      showtuning = d.showtuning && not (receiving && leb 10 (time - d.ten.lastseen));
    } in
    if_both (λ (r : Bool × Pools × Device). r.1.cams.pool ≡ (cam_free i s.cams.pool).1)
      (not receiving && leb d.disabletimeout (time - d.last) || true)
      (true, (stop s d0).0, (stop s d0).1) (false, s, d0) (λ f. stop-cams s d0 i e c)
      λ f. absurd (ground (arith, f))

owner-used :
    (ref : Device → Option ℕ) (ds : List Device) (j m : ℕ) (e : Device)
    → j < length ds
    → ref (get_or ds j e) ≡ some m
    → 0 < owners ref ds m
owner-used ref [] j m e h r = absurd (omega (arith, h))
owner-used ref (d ∷ ds) zero m e h r = rw r (ground arith)
owner-used ref (d ∷ ds) (suc j) m e h r =
    omega (arith, owner-used ref ds j m e (omega (arith, h)) r)

-- The device that is found, behind SetTempDisable (true).
steal_at :
    (ch : Channel) (slot : Option ℕ) (prios : ℕ → ℤ) (receiving : Bool) (time i : ℕ) (w : World)
    → Account w
    → All InLimit w.pools.cams.pool
    → find_victim slot prios w.pools 0 w.devs ≡ some i
    → cam_available none slot
        (set_temp_disable true receiving time w.pools (get_or w.devs i (no_device ch))).1.cams.pool
      ≢ none
steal_at ch slot prios receiving time i w a l e =
    let s = w.pools in
    let (j, at, below, can) = find_victim-can slot prios s 0 i w.devs (no_device ch) e in
    let d : Device = get_or w.devs j (no_device ch) in
    let same : i ≡ j = omega (arith, at) in
    let marked : d.ca_enable ≡ is_some d.camref =
      All-get_or (λ d. d.ca_enable ≡ is_some d.camref) w.devs j (no_device ch) a.marked refl in
    let (m, ref, on, fits) = can_steal-cam slot (prios i) s d can marked in
    let used : 0 < uses_at s.cams.pool m =
      omega (arith, a.cams m, owner-used (λ d. d.camref) w.devs j m (no_device ch) below ref) in
    let free =
      free-available slot s.cams.pool m (All-get_or InLimit s.cams.pool m free_cam l (inl refl))
        used fits in
    subst
      (λ k.
        cam_available none slot
          (set_temp_disable true receiving time s (get_or w.devs k (no_device ch))).1.cams.pool
        ≢ none)
      (sym same)
      (subst (λ pool. cam_available none slot pool ≢ none)
        (sym (disable-cams receiving time s d m on ref))
        (available-some slot (cam_free m s.cams.pool).1 m free))

-- Where the account is right and no CAM is used beyond its limit: if CAMSteal with force succeeds, a CAM
-- of the slot is available behind it.
pub cam_steal-available :
    (ch : Channel) (slot : Option ℕ) (prios : ℕ → ℤ) (receivings : ℕ → Bool) (time : ℕ) (w : World)
    → Account w
    → All InLimit w.pools.cams.pool
    → (cam_steal ch slot prios receivings time w).0 ≡ true
    → cam_available none slot (cam_steal ch slot prios receivings time w).1.pools.cams.pool ≢ none
unfolding cam_steal
cam_steal-available ch slot prios receivings time w a l h =
    option_both
      (λ (r : Bool × World). r.0 ≡ true → cam_available none slot r.1.pools.cams.pool ≢ none)
      (find_victim slot prios w.pools 0 w.devs) _ _ (λ e f. absurd (grind (arith, f)))
      (λ i e f. steal_at ch slot prios (receivings i) time i w a l e) h
