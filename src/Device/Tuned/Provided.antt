-- ===== src/Device/Tuned/Provided.antt =====
-- What ProvidesTransponder of device.c promises for a device without a tuner, SetChannelDevice keeps.
use vdr_plugin_mcli.Prelude.{
  ℕ, ◌&&◌, ◌||◌, not, ◌==◌, ◌≡◌, ◌≢◌, refl, sym, ap, subst, ◌∙◌, inl, inr, Bool, true, false,
  Option, none, some, List, arith, if◌then◌else◌, if_both, bit_and,
}
use vdr_plugin_mcli.Prelude.Int.{ℤ}
use vdr_plugin_mcli.Mcli.Tuners.{TunerPool, same_kind, tuner_alloc, tuner_available}
use vdr_plugin_mcli.Mcli.Tuners.Inuse.{inuse_at-alloc, alloc-available}
use vdr_plugin_mcli.Device.{Config, Channel, Device, Frontend, Pools}
use vdr_plugin_mcli.Device.Source.{translate_type_pos, source_type, is_s2, frontend}
use vdr_plugin_mcli.Device.Provide.{
  is_some, channel_type, any_available, provides_source, provides_transponder,
  is_tuned_to_transponder,
}
use vdr_plugin_mcli.Device.Tune.{drop_tuner}
use vdr_plugin_mcli.Device.Ownership.Tunes.{set_type}
use vdr_plugin_mcli.Device.SetChannel.{
  is_scan, tune_free, take_tuner, tune_alloc, tune_receiver, tune_tuner,
}

-- A type that SetChannelDevice knows how to tune.
abbrev tunable : Config → Option ℕ → Bool
tunable c t =
    same_kind t (some c.fe.dvbs2)
    || same_kind t (some c.fe.qpsk)
    || same_kind t (some c.fe.qam)
    || same_kind t (some c.fe.ofdm)

-- A type that is set can be tuned.
abbrev Sound : Config → Option ℕ → Type 0
Sound c t = t ≢ none → tunable c t ≡ true

source_type-Sound : (c : Config) (n : ℕ) → Sound c (source_type c n)
source_type-Sound c n =
    if_both (Sound c) (n == c.st_sat) (some c.fe.qpsk)
      (if n == c.st_cable then some c.fe.qam else (if n == c.st_terr then some c.fe.ofdm else none))
      (λ e h. ground arith)
      λ e.
        if_both (Sound c) (n == c.st_cable) (some c.fe.qam)
          (if n == c.st_terr then some c.fe.ofdm else none) (λ e' h. ground arith)
          λ e'.
            if_both (Sound c) (n == c.st_terr) (some c.fe.ofdm) none (λ e'' h. ground arith)
              λ e'' h. absurd (h refl)

channel_type-Sound : (c : Config) (ch : Channel) → Sound c (channel_type c ch)
unfolding translate_type_pos
channel_type-Sound c ch =
    if_both (Sound c) (is_s2 ch) (some c.fe.dvbs2) (source_type c (bit_and ch.source c.st_mask))
      (λ e h. ground arith) λ e. source_type-Sound c (bit_and ch.source c.st_mask)

-- A value that is there.
abbrev Present : Option Frontend → Type 0
Present o = (f : Frontend) × (o ≡ some f)

no_kind : (a b c d : Bool) → (a || b) ≡ false → c ≡ false → d ≡ false → (a || b || c || d) ≢ true
no_kind a b c d h h' h'' e = grind (arith, h, h', h'', e)

frontend-Present :
    (c : Config) (ch : Channel) (t : Option ℕ) → tunable c t ≡ true → Present (frontend c ch t)
unfolding frontend
frontend-Present c ch t h =
    if_both Present (same_kind t (some c.fe.dvbs2) || same_kind t (some c.fe.qpsk)) _ _
      (λ e. (_, refl))
      λ e.
        if_both Present (same_kind t (some c.fe.qam)) _ _ (λ e'. (_, refl))
          λ e'.
            if_both Present (same_kind t (some c.fe.ofdm)) _ none (λ e''. (_, refl))
              λ e''. absurd (
                no_kind (same_kind t (some c.fe.dvbs2)) (same_kind t (some c.fe.qpsk))
                  (same_kind t (some c.fe.qam)) (same_kind t (some c.fe.ofdm)) e e' e'' h)

tune_receiver-ok :
    (c : Config) (ch : Channel) (p : ℤ) (time : ℕ) (d : Device)
    → tunable c d.fetype ≡ true
    → (tune_receiver c ch p time d).0 ≡ true
unfolding tune_receiver
tune_receiver-ok c ch p time d h =
    let (f, e) = frontend-Present c ch d.fetype h in
    if_both (λ (r : Bool × Device). r.0 ≡ true)
      (is_tuned_to_transponder ch (record d { pos = p }) && not (is_scan ch)) _ _ (λ e'. refl)
      λ e'. rw e refl

true-false : true ≢ false
true-false e = grind (arith, e)

-- TunerAlloc that fails leaves the pool as it is.
alloc_none :
    (c : Config) (t : Option ℕ) (p : ℤ) (pool : List TunerPool)
    → is_some (tuner_alloc c.fe c.sat_lists c.limits t p pool).0 ≡ false
    → (tuner_alloc c.fe c.sat_lists c.limits t p pool).1 ≡ pool
alloc_none c t p pool h = elim (inuse_at-alloc c.fe c.sat_lists c.limits t p pool) [
  | inl e ↦ ap (λ r. r.1) e
  | inr (i, below, e, free, behind) ↦ absurd (true-false (sym (ap is_some e) ∙ h))
]

or_second : (a b c : Bool) → a ≡ false → (a || b && c) ≡ true → (b ≡ true) × (c ≡ true)
or_second a b c h e = ground (arith, h, e)

-- A tuner of a type that can be tuned.
abbrev Ready : Config → Pools × Device → Type 0
Ready c r = (is_some r.1.tunerref ≡ true) × (tunable c r.1.fetype ≡ true)

tune_alloc-Ready :
    (c : Config) (t : Option ℕ) (p : ℤ) (s : Pools) (d : Device)
    → any_available c t p s ≡ true
    → tunable c t ≡ true
    → Ready c (tune_alloc c t p s d)
unfolding tune_alloc take_tuner any_available
tune_alloc-Ready c t p s d h k =
    let find : Option ℕ → List TunerPool → Option ℕ × List TunerPool =
      λ t pool. tuner_alloc c.fe c.sat_lists c.limits t p pool in
    let found : Option ℕ → List TunerPool → Bool =
      λ t pool. is_some (tuner_available c.fe c.sat_lists c.limits t p pool) in
    let same : (t : Option ℕ) (pool : List TunerPool) → is_some (find t pool).0 ≡ found t pool =
      λ t pool. ap is_some (alloc-available c.fe c.sat_lists c.limits t p pool) in
    let r : Pools × Device = take_tuner c t p s (record d { tuned = false }) in
    let r2 : Pools × Device = take_tuner c (some c.fe.dvbs2) p r.0 r.1 in
    if_both (Ready c) (is_some r.1.tunerref) (r.0, record r.1 { fetype = t })
      (if same_kind t (some c.fe.qpsk) then (r2.0, set_type c r2.1) else (r.0, r.1)) (λ e. (e, k))
      λ e.
        let (sat, second) =
          or_second (found t s.tuners) (same_kind t (some c.fe.qpsk))
            (found (some c.fe.dvbs2) s.tuners) (sym (same t s.tuners) ∙ e) h in
        let taken : is_some r2.1.tunerref ≡ true =
          same (some c.fe.dvbs2) r.0.tuners
          ∙ ap (found (some c.fe.dvbs2)) (alloc_none c t p s.tuners e)
          ∙ second in
        if_both (Ready c) (same_kind t (some c.fe.qpsk)) (r2.0, set_type c r2.1) (r.0, r.1)
          (λ e'.
            if_both (λ (d' : Device). Ready c (r2.0, d')) (is_some r2.1.tunerref)
              (record r2.1 { fetype = some c.fe.dvbs2 }) r2.1 (λ e''. (taken, ground arith))
              λ e''. absurd (true-false (sym taken ∙ e'')))
          λ e'. absurd (true-false (sym sat ∙ e'))

-- A device without a tuner, as a record.
abbrev no_tuner : Device → Device
no_tuner d = record d { tunerref = none }

tune_free-none :
    (c : Config) (ch : Channel) (t : Option ℕ) (p : ℤ) (s : Pools) (d : Device)
    → tune_free c ch t p s (no_tuner d) ≡ (s, no_tuner d)
unfolding tune_free drop_tuner
tune_free-none c ch t p s d =
    if_both (λ (r : Pools × Device). r ≡ (s, no_tuner d))
      (is_s2 ch && not (same_kind d.fetype (some c.fe.dvbs2))) _ _ (λ e. refl) λ e. refl

second : (a b : Bool) → (a && b) ≡ true → b ≡ true
second a b h = ground (arith, h)

tuner_needed :
    (c : Config) (ch : Channel) (s : Pools) (d : Device)
    → provides_transponder c ch s (no_tuner d) ≡ true
    → any_available c (channel_type c ch) (translate_type_pos c ch.source).1 s ≡ true
unfolding provides_transponder
tuner_needed c ch s d h = second (provides_source c ch.source s (no_tuner d)) _ h

tunes :
    (c : Config) (ch : Channel) (time : ℕ) (s : Pools) (d : Device)
    → provides_transponder c ch s (no_tuner d) ≡ true
    → channel_type c ch ≢ none
    → (tune_tuner c ch time s (no_tuner d)).0 ≡ true
unfolding tune_tuner
tunes c ch time s d h k =
    let p = (translate_type_pos c ch.source).1 in
    let t = channel_type c ch in
    let (has, can) =
      tune_alloc-Ready c t p s (no_tuner d) (tuner_needed c ch s d h) (channel_type-Sound c ch k) in
    let rest : Pools × Device → Bool × Pools × Device = λ r.
      let r2 : Pools × Device =
        if is_some r.1.tunerref then (r.0, r.1) else tune_alloc c t p r.0 r.1 in
      let r3 : Bool × Device = tune_receiver c ch p time r2.1 in
      if is_some r2.1.tunerref then (r3.0, r2.0, r3.1) else (false, r2.0, r2.1) in
    subst (λ r. (rest r).0 ≡ true) (sym (tune_free-none c ch t p s d))
      (if_both (λ (r : Bool × Pools × Device). r.0 ≡ true)
        (is_some (tune_alloc c t p s (no_tuner d)).1.tunerref) _ _
        (λ e. tune_receiver-ok c ch p time (tune_alloc c t p s (no_tuner d)).1 can)
        λ e. absurd (true-false (sym has ∙ e)))

-- If ProvidesTransponder says that a device without a tuner provides a channel, and the source of the
-- channel is known, then SetChannelDevice, from the choice of the type on, succeeds on the same pools.
pub provides-tunes :
    (c : Config) (ch : Channel) (time : ℕ) (s : Pools) (d : Device)
    → d.tunerref ≡ none
    → provides_transponder c ch s d ≡ true
    → channel_type c ch ≢ none
    → (tune_tuner c ch time s d).0 ≡ true
provides-tunes c ch time s d e h k =
    let same : d ≡ no_tuner d = ap (λ r. record d { tunerref = r }) e in
    subst (λ x. (tune_tuner c ch time s x).0 ≡ true) (sym same)
      (tunes c ch time s d (subst (λ x. provides_transponder c ch s x ≡ true) same h) k)
