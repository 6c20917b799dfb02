-- ===== src/Device/Tuned.antt =====
-- What SetChannelDevice of device.c promises: a tuner that reaches the channel, and a tuner whenever
-- ProvidesTransponder says that there is one.
pub mod Provided
use vdr_plugin_mcli.Prelude.{
  ℕ, ◌&&◌, ◌||◌, not, ◌==◌, ◌≡◌, ◌≢◌, refl, sym, ap, subst, ◌∙◌, ◌⊎◌, inl, inr, Bool, true, false,
  Bool-cases, Option, none, some, Option-cases, List, [], ◌∷◌, arith, if◌then◌else◌, get_or,
  if_both, option_both,
}
use vdr_plugin_mcli.Prelude.Int.{ℤ, pos}
use vdr_plugin_mcli.Mcli.Tuners.{same_kind, tuner_alloc, tuner_available}
use vdr_plugin_mcli.Mcli.Tuners.Inuse.{alloc-reaches, alloc-available}
use vdr_plugin_mcli.Device.{
  Config, Channel, Device, DvbPid, Frontend, Pools, unset, no_ten, give_tuner,
}
use vdr_plugin_mcli.Device.Source.{translate_type_pos, is_s2, sat_voltage, frontend}
use vdr_plugin_mcli.Device.Provide.{
  is_some, reaches_pos, channel_type, any_available, provides_source, provides_transponder,
  is_tuned_to_transponder, on_transponder,
}
use vdr_plugin_mcli.Device.Tune.{drop_tuner}
use vdr_plugin_mcli.Device.Ownership.{is_none}
use vdr_plugin_mcli.Device.Ownership.Tunes.{set_type}
use vdr_plugin_mcli.Device.SetChannel.{
  is_scan, tune_type, tune_free, take_tuner, tune_alloc, start_tune, tune_receiver, tune_tuner,
}

none-some : {i : ℕ} → none ≢ some i
none-some e = grind (arith, e)

and_right : (a b : Bool) → (a && b) ≡ true → b ≡ true
and_right a b h = ground (arith, h)

and_left : (a b : Bool) → (a && b) ≡ true → a ≡ true
and_left a b h = ground (arith, h)

the_some : (o : Option ℕ) → is_some o ≡ true → (i : ℕ) × (o ≡ some i)
the_some none h = absurd (grind (arith, h))
the_some (some i) h = (i, refl)

set_type_ref : (c : Config) (d : Device) → d.tunerref ≡ (set_type c d).tunerref
set_type_ref c d =
    if_both (λ (d' : Device). d.tunerref ≡ d'.tunerref) (is_some d.tunerref)
      (record d { fetype = some c.fe.dvbs2 }) d (λ e. refl) λ e. refl

-- The device has a tuner of the pool, if any, that reaches the position.
abbrev Reaching : Config → ℤ → Pools × Device → Type 0
Reaching c p r = (i : ℕ) → r.1.tunerref ≡ some i → reaches_pos c i p r.0 ≡ true

drop_tuner-Reaching : (c : Config) (p : ℤ) (s : Pools) (d : Device) → Reaching c p (drop_tuner s d)
unfolding drop_tuner
drop_tuner-Reaching c p s d =
    option_both (Reaching c p) d.tunerref (s, d)
      (λ i. (give_tuner i s, record d { tunerref = none }))
      (λ e i q. absurd (none-some (sym e ∙ q))) λ i e j q. absurd (none-some q)

tune_free-Reaching :
    (c : Config) (ch : Channel) (t : Option ℕ) (p : ℤ) (s : Pools) (d : Device)
    → Reaching c p (tune_free c ch t p s d)
unfolding tune_free
tune_free-Reaching c ch t p s d =
    let keeps : Bool = elim d.tunerref [
      | none ↦ true
      | some i ↦ same_kind d.fetype t && reaches_pos c i p s
    ] in
    let r : Pools × Device = if keeps then (s, d) else drop_tuner s d in
    let reaching : Reaching c p r =
      if_both (Reaching c p) keeps (s, d) (drop_tuner s d)
        (λ e i q. and_right (same_kind d.fetype t) (reaches_pos c i p s) (
          subst
            (λ (o : Option ℕ).
              elim o as (λ x. Bool) [
                | none ↦ true
                | some i ↦ same_kind d.fetype t && reaches_pos c i p s
              ]
              ≡ true)
            q e))
        (λ e. drop_tuner-Reaching c p s d) in
    if_both (Reaching c p) (is_s2 ch && not (same_kind r.1.fetype (some c.fe.dvbs2)))
      (drop_tuner r.0 r.1) (r.0, r.1) (λ e. drop_tuner-Reaching c p r.0 r.1) λ e. reaching

tune_alloc-Reaching :
    (c : Config) (t : Option ℕ) (p : ℤ) (s : Pools) (d : Device)
    → Reaching c p (tune_alloc c t p s d)
unfolding tune_alloc take_tuner
tune_alloc-Reaching c t p s d =
    let r : Pools × Device = take_tuner c t p s (record d { tuned = false }) in
    let r2 : Pools × Device = take_tuner c (some c.fe.dvbs2) p r.0 r.1 in
    if_both (Reaching c p) (is_some r.1.tunerref) (r.0, record r.1 { fetype = t })
      (if same_kind t (some c.fe.qpsk) then (r2.0, set_type c r2.1) else (r.0, r.1))
      (λ e i q. alloc-reaches c.fe c.sat_lists c.limits t p s.tuners i q)
      λ e.
        if_both (Reaching c p) (same_kind t (some c.fe.qpsk)) (r2.0, set_type c r2.1) (r.0, r.1)
          (λ e' i q.
            alloc-reaches c.fe c.sat_lists c.limits (some c.fe.dvbs2) p r.0.tuners i
              (set_type_ref c r2.1 ∙ q))
          λ e' i q. alloc-reaches c.fe c.sat_lists c.limits t p s.tuners i q

-- What a receiver that is tuned to a channel at a position has set.
abbrev pub IsTuned : Channel → ℤ → Device → Device → Type 0
IsTuned ch p d d' = (d'.tuned ≡ true) × (d'.pos ≡ p) × (d'.chan ≡ ch) × (d'.tunerref ≡ d.tunerref)

start_tune-IsTuned :
    (ch : Channel) (p : ℤ) (time : ℕ) (pids : List DvbPid) (d : Device)
    → d.pids ≡ pids
    → d.pos ≡ p
    → d.chan ≡ ch
    → IsTuned ch p d (start_tune time d)
start_tune-IsTuned ch p time [] d e ep ec = (refl, rw (e, ep) refl, rw (e, ec) refl, rw e refl)
start_tune-IsTuned ch p time (x ∷ xs) d e ep ec =
    (refl, rw (e, ep) refl, rw (e, ec) refl, rw e refl)

second : (a b c : Bool) → (a && b && c) ≡ true → b ≡ true
second a b c h = ground (arith, h)

is_tuned-tuned : (ch : Channel) (d : Device) → is_tuned_to_transponder ch d ≡ true → d.tuned ≡ true
unfolding is_tuned_to_transponder
is_tuned-tuned ch d h = second d.enable d.tuned (on_transponder ch d) h

tune_receiver-IsTuned :
    (c : Config) (ch : Channel) (p : ℤ) (time : ℕ) (d : Device)
    → (tune_receiver c ch p time d).0 ≡ true
    → IsTuned ch p d (tune_receiver c ch p time d).1
unfolding tune_receiver
tune_receiver-IsTuned c ch p time d =
    let d0 : Device = record d { pos = p } in
    let d1 : Device = record d0 { ten = no_ten; voltage = 0; fep = unset; chan = ch } in
    let ready : Frontend → Device = λ f. record d1 {
      fep = f;
      voltage =
          if same_kind d1.fetype (some c.fe.dvbs2) || same_kind d1.fetype (some c.fe.qpsk)
          then sat_voltage c ch
          else 0;
    } in
    let rest : Bool × Device = elim (frontend c ch d1.fetype) [
      | none ↦ (false, d1)
      | some f ↦ (true, start_tune time (ready f))
    ] in
    let Done : Bool × Device → Type 0 = λ r. r.0 ≡ true → IsTuned ch p d r.1 in
    let same : Bool = is_tuned_to_transponder ch d0 && not (is_scan ch) in
    if_both Done same (true, record d0 { chan = ch }) rest
      (λ e q. (
        is_tuned-tuned ch d0 (and_left (is_tuned_to_transponder ch d0) (not (is_scan ch)) e),
        refl,
        refl,
        refl,
      ))
      λ e.
        option_both Done (frontend c ch d1.fetype) (false, d1)
          (λ f. (true, start_tune time (ready f))) (λ e' q. absurd (grind (arith, q)))
          λ f e' q. start_tune-IsTuned ch p time d.pids (ready f) refl refl refl

-- The part of SetChannelDevice from the choice of the type on, where it succeeds, leaves the device with
-- a tuner that reaches the position of the channel, tuned to this position and this channel.
pub tune_tuner-reaches :
    (c : Config) (ch : Channel) (time : ℕ) (s : Pools) (d : Device)
    → (tune_tuner c ch time s d).0 ≡ true
    → let p = (translate_type_pos c ch.source).1 in
      let (ok, s', d') = tune_tuner c ch time s d in
      (i : ℕ) × (d'.tunerref ≡ some i)
      × (reaches_pos c i p s' ≡ true)
      × (d'.tuned ≡ true)
      × (d'.pos ≡ p)
      × (d'.chan ≡ ch)
unfolding tune_tuner
tune_tuner-reaches c ch time s d =
    let p = (translate_type_pos c ch.source).1 in
    let t = tune_type c ch d in
    let r : Pools × Device = tune_free c ch t p s d in
    let r2 : Pools × Device =
      if is_some r.1.tunerref then (r.0, r.1) else tune_alloc c t p r.0 r.1 in
    let reaching : Reaching c p r2 =
      if_both (Reaching c p) (is_some r.1.tunerref) (r.0, r.1) (tune_alloc c t p r.0 r.1)
        (λ e. tune_free-Reaching c ch t p s d) (λ e. tune_alloc-Reaching c t p r.0 r.1) in
    let r3 : Bool × Device = tune_receiver c ch p time r2.1 in
    let Done : Bool × Pools × Device → Type 0 = λ r.
      r.0 ≡ true
      → (i : ℕ) × (r.2.tunerref ≡ some i)
        × (reaches_pos c i p r.1 ≡ true)
        × (r.2.tuned ≡ true)
        × (r.2.pos ≡ p)
        × (r.2.chan ≡ ch) in
    if_both Done (is_some r2.1.tunerref) (r3.0, r2.0, r3.1) (false, r2.0, r2.1)
      (λ e q.
        let (tuned, at, chan, ref) = tune_receiver-IsTuned c ch p time r2.1 q in
        let (i, held) = the_some r2.1.tunerref e in
        (i, ref ∙ held, reaching i held, tuned, at, chan))
      λ e q. absurd (grind (arith, q))
