-- ===== src/Device/Ownership.antt =====
-- Who holds the tuners and the CAMs of the pools: the operations of cMcliDevice (device.c) move them
-- between the pools and one device.
pub mod Keeps
pub mod Tunes
pub mod Account
pub mod Switch
pub mod Pid
pub mod Steps
pub mod Steal
use vdr_plugin_mcli.Prelude.{
  ℕ, zero, suc, ◌+◌, ◌-◌, ◌≤◌, ◌<◌, ◌&&◌, ◌||◌, not, ◌==◌, ◌≡◌, refl, sym, ap, subst, ◌∙◌, inl, inr,
  Bool, true, false, Option, none, some, List, [], ◌∷◌, arith, if◌then◌else◌, get_or, set, length,
  All, if_both, option_both,
}
use vdr_plugin_mcli.Prelude.Int.{ℤ}
use vdr_plugin_mcli.Mcli.Tuners.{tuner_alloc}
use vdr_plugin_mcli.Mcli.Tuners.Inuse.{inuse_at, inuse_at-free, inuse_at-alloc}
use vdr_plugin_mcli.Mcli.Cams.{cam_alloc}
use vdr_plugin_mcli.Mcli.Cams.Uses.{uses_at, uses_at-free, uses_at-alloc}
use vdr_plugin_mcli.Device.{Config, Channel, Device, Pools, World, give_cam}
use vdr_plugin_mcli.Device.Provide.{is_some}
use vdr_plugin_mcli.Device.Tune.{drop_cam, drop_tuner, take_cam}
use vdr_plugin_mcli.Device.SetChannel.{take_tuner}

-- How often a reference points to the entry `j`.
abbrev pub refers : Option ℕ → ℕ → ℕ
refers none j = 0
refers (some i) j = if i == j then 1 else 0

abbrev pub held : Pools → ℕ → ℕ
held s j = if inuse_at s.tuners j then 1 else 0

-- The tuners in use are those of the device and, as `rt` counts them, of others, each of one holder; the
-- uses of the CAMs are those of the device and, as `rc` counts them, of others; and the device has the
-- mark of a CAM if and only if it has one.
pub record Owned (rt rc : ℕ → ℕ) (r : Pools × Device) : Type 0 where
  pub tuners : (j : ℕ) → held r.0 j ≡ rt j + refers r.1.tunerref j
  pub cams : (j : ℕ) → uses_at r.0.cams.pool j ≡ rc j + refers r.1.camref j
  pub marked : r.1.ca_enable ≡ is_some r.1.camref

freed :
    (r : ℕ → ℕ) (i j : ℕ) (used : ℕ → Bool)
    → ((k : ℕ) → (if used k then 1 else 0) ≡ r k + refers (some i) k)
    → (if (if i == j then false else used j) then 1 else 0) ≡ r j + 0
freed r i j used h = ground (arith, h j)

taken :
    (r : ℕ → ℕ) (i j : ℕ) (used : ℕ → Bool)
    → used i ≡ false
    → ((k : ℕ) → (if used k then 1 else 0) ≡ r k + 0)
    → (if (if i == j then true else used j) then 1 else 0) ≡ r j + refers (some i) j
taken r i j used free h = ground (arith, h i, h j, free)

left :
    (r : ℕ → ℕ) (i j : ℕ) (uses : ℕ → ℕ)
    → ((k : ℕ) → uses k ≡ r k + refers (some i) k)
    → (if i == j then uses i - 1 else uses j) ≡ r j + 0
left r i j uses h = ground (arith, h i, h j)

added :
    (r : ℕ → ℕ) (i j : ℕ) (uses : ℕ → ℕ)
    → ((k : ℕ) → uses k ≡ r k + 0)
    → (if i == j then uses i + 1 else uses j) ≡ r j + refers (some i) j
added r i j uses h = ground (arith, h i, h j)

held-give_cam : (o : Option ℕ) (s : Pools) (j : ℕ) → held (give_cam o s) j ≡ held s j
unfolding give_cam
held-give_cam none s j = refl
held-give_cam (some i) s j = refl

returned :
    (r : ℕ → ℕ) (o : Option ℕ) (s : Pools)
    → ((k : ℕ) → uses_at s.cams.pool k ≡ r k + refers o k)
    → (j : ℕ) → uses_at (give_cam o s).cams.pool j ≡ r j + 0
unfolding give_cam
returned r none s h j = h j
returned r (some i) s h j = rw (uses_at-free s.cams.pool i j) (left r i j (uses_at s.cams.pool) h)

pub is_none : (o : Option ℕ) → is_some o ≡ false → o ≡ none
is_none none h = refl
is_none (some i) h = absurd (grind (arith, h))

module _ (rt rc : ℕ → ℕ) where
  pub drop_cam-Owned : (s : Pools) (d : Device) → Owned rt rc (s, d) → Owned rt rc (drop_cam s d)
  unfolding drop_cam
  drop_cam-Owned s d o =
      if_both (Owned rt rc) d.ca_enable
        (give_cam d.camref s, record d { ca_enable = false; camref = none }) (s, d)
        (λ e. record {
          tuners = λ j. held-give_cam d.camref s j ∙ o.tuners j;
          cams = returned rc d.camref s o.cams;
          marked = refl;
        })
        λ e. o

  pub drop_tuner-Owned :
      (s : Pools) (d : Device) → Owned rt rc (s, d) → Owned rt rc (drop_tuner s d)
  unfolding drop_tuner
  drop_tuner-Owned s d o =
      option_both (Owned rt rc) d.tunerref _ _ (λ e. o)
        λ i e. record {
          tuners = λ j. rw (inuse_at-free s.tuners i j) (
              freed rt i j (inuse_at s.tuners)
                λ k. subst (λ r. held s k ≡ rt k + refers r k) e (o.tuners k));
          cams = o.cams;
          marked = o.marked;
        }

  pub take_cam-Owned :
      (slot : Option ℕ) (s : Pools) (d : Device)
      → d.ca_enable ≡ false
      → Owned rt rc (s, d)
      → Owned rt rc (take_cam slot s d)
  unfolding take_cam
  take_cam-Owned slot s d unmarked o =
      let empty : d.camref ≡ none = is_none d.camref (sym o.marked ∙ unmarked) in
      let others : (k : ℕ) → uses_at s.cams.pool k ≡ rc k + 0 =
        λ k. subst (λ r. uses_at s.cams.pool k ≡ rc k + refers r k) empty (o.cams k) in
      elim (uses_at-alloc none slot s.cams.pool) [
        | inl e ↦ record {
          tuners = o.tuners;
          cams = λ j. rw (take_cam, e) (others j);
          marked = rw (take_cam, e) unmarked;
        }
        | inr (i, below, e, behind) ↦ record {
          tuners = o.tuners;
          cams = λ j. rw (take_cam, e, behind j) (added rc i j (uses_at s.cams.pool) others);
          marked = rw (take_cam, e) refl;
        }
      ]

  pub take_tuner-Owned :
      (c : Config) (t : Option ℕ) (p : ℤ) (s : Pools) (d : Device)
      → d.tunerref ≡ none
      → Owned rt rc (s, d)
      → Owned rt rc (take_tuner c t p s d)
  unfolding take_tuner
  take_tuner-Owned c t p s d empty o =
      let others : (k : ℕ) → held s k ≡ rt k + 0 =
        λ k. subst (λ r. held s k ≡ rt k + refers r k) empty (o.tuners k) in
      elim (inuse_at-alloc c.fe c.sat_lists c.limits t p s.tuners) [
        | inl e ↦ record {
          tuners = λ j. rw (take_tuner, e) (others j);
          cams = o.cams;
          marked = o.marked;
        }
        | inr (i, below, e, free, behind) ↦ record {
          tuners = λ j. rw (take_tuner, e, behind j) (taken rt i j (inuse_at s.tuners) free others);
          cams = o.cams;
          marked = o.marked;
        }
      ]

  -- What changes neither the references nor the mark of a CAM.
  pub keep-Owned :
      (s : Pools) (d d' : Device)
      → d'.tunerref ≡ d.tunerref
      → d'.camref ≡ d.camref
      → d'.ca_enable ≡ d.ca_enable
      → Owned rt rc (s, d)
      → Owned rt rc (s, d')
  keep-Owned s d d' et ec em o = record {
    tuners = λ j. rw et (o.tuners j);
    cams = λ j. rw ec (o.cams j);
    marked = rw (ec, em) o.marked;
  }

  pub keep_pools-Owned :
      (s s' : Pools) (d : Device)
      → ((j : ℕ) → inuse_at s'.tuners j ≡ inuse_at s.tuners j)
      → ((j : ℕ) → uses_at s'.cams.pool j ≡ uses_at s.cams.pool j)
      → Owned rt rc (s, d)
      → Owned rt rc (s', d)
  keep_pools-Owned s s' d et ec o = record {
    tuners = λ j. rw (et j) (o.tuners j);
    cams = λ j. ec j ∙ o.cams j;
    marked = o.marked;
  }
