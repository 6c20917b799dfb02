-- ===== src/Mcli/Tuners/Inuse.antt =====
-- Which tuners of the pool are in use behind the operations of mcli.c.
use vdr_plugin_mcli.Prelude.{
  ℕ, subst, [], ◌∷◌, get_or-set_self, ◌<◌, ◌==◌, ◌≡◌, refl, ap, ◌∙◌, ◌⊎◌, inl, inr, Bool, true,
  false, not, Bool-cases, Option, none, some, Option-cases, List, arith, if◌then◌else◌, length,
  get_or, find_index, field-set, field-keep, if_both, option_both,
}
use vdr_plugin_mcli.Prelude.Int.{ℤ}
use vdr_plugin_mcli.Mcli.Tuners.{
  SatelliteList, same_netceiver, tuner_find_sat_list, find_sat_list, tuner_satelite_position_lookup,
  tuner_available, TunerPool, TunerInfo, FeTypes, SatLists, Limits, free_tuner, is_taken,
  tuner_alloc, tuner_free, tuner_pool_add, tuner_pool_del,
}
use vdr_plugin_mcli.Mcli.Tuners.Alloc.{tuner_alloc_lem}

-- tp->inuse of the entry with an index.
abbrev pub inuse_at : List TunerPool → ℕ → Bool
inuse_at pool j = (get_or pool j free_tuner).inuse

keep_off : (f : ℕ → Bool) (i j : ℕ) → f i ≡ false → f j ≡ (if i == j then false else f j)
keep_off f i j h = ground (arith, h)

pub inuse_at-free :
    (pool : List TunerPool) (i j : ℕ)
    → inuse_at (tuner_free i pool).1 j ≡ (if i == j then false else inuse_at pool j)
unfolding tuner_free
inuse_at-free pool i j = elim (Bool-cases (inuse_at pool i)) [
  | inl h ↦
      rw (tuner_free, h)
        (field-set (λ tp. tp.inuse) pool i j (record (get_or pool i free_tuner) { inuse = false })
          free_tuner (λ e. refl))
  | inr h ↦ rw (tuner_free, h) (keep_off (inuse_at pool) i j h)
]

-- TunerAlloc gives no tuner and leaves the pool as it is, or it gives one that was free.
pub inuse_at-alloc :
    (fe : FeTypes) (ns : List SatLists) (limits : Limits) (k : Option ℕ) (p : ℤ)
    (pool : List TunerPool)
    → (tuner_alloc fe ns limits k p pool ≡ (none, pool))
      ⊎ ((i : ℕ) × (i < length pool)
          × ((tuner_alloc fe ns limits k p pool).0 ≡ some i)
          × (inuse_at pool i ≡ false)
          × ((j : ℕ)
              → inuse_at (tuner_alloc fe ns limits k p pool).1 j
                ≡ (if i == j then true else inuse_at pool j)))
inuse_at-alloc fe ns limits k p pool = elim (tuner_alloc_lem fe ns limits k p pool) [
  | inl (nothing, why) ↦ inl nothing
  | inr (i, below, room, usable, taken, counted) ↦ inr (
    i,
    below,
    ap (λ r. r.0) taken,
    usable.0,
    λ j. rw taken (
        field-set (λ tp. tp.inuse) pool i j (record (get_or pool i free_tuner) { inuse = true })
          free_tuner (λ le. absurd (omega (arith, below, le)))),
  )
]

-- TunerPoolAdd and TunerPoolDel leave them as they are.
pub inuse_at-add :
    (t : TunerInfo) (pool : List TunerPool) (j : ℕ)
    → inuse_at (tuner_pool_add t pool).1 j ≡ inuse_at pool j
unfolding tuner_pool_add
inuse_at-add t pool j =
    option_both (λ (r : Bool × List TunerPool). inuse_at r.1 j ≡ inuse_at pool j)
      (find_index (λ tp. not (is_taken tp)) pool) _ _ (λ e. refl)
      λ i e. field-keep (λ tp. tp.inuse) pool i j _ free_tuner refl

pub inuse_at-del :
    (i : ℕ) (pool : List TunerPool) (j : ℕ) → inuse_at (tuner_pool_del i pool).1 j ≡ inuse_at pool j
unfolding tuner_pool_del
inuse_at-del i pool j =
    if_both (λ (r : Bool × List TunerPool). inuse_at r.1 j ≡ inuse_at pool j)
      (is_taken (get_or pool i free_tuner)) _ _
      (λ e. field-keep (λ tp. tp.inuse) pool i j _ free_tuner refl) λ e. refl

find_sat_list-inuse :
    (ns : List SatLists) (tp : TunerPool) (b : Bool)
    → find_sat_list ns (record tp { inuse = b }) ≡ find_sat_list ns tp
unfolding find_sat_list
find_sat_list-inuse [] tp b = refl
find_sat_list-inuse (n ∷ ns) tp b =
    ap
      (λ (rest : Option SatelliteList).
        if same_netceiver n.uuid tp.uuid
        then elim (tuner_find_sat_list n.lists tp.sat_list_name) [ some l ↦ some l | none ↦ rest ]
        else rest)
      (find_sat_list-inuse ns tp b)

-- Whether a tuner reaches a position does not depend on its use.
pub lookup-inuse :
    (fe : FeTypes) (ns : List SatLists) (p : ℤ) (tp : TunerPool) (b : Bool)
    → tuner_satelite_position_lookup fe ns p (record tp { inuse = b })
      ≡ tuner_satelite_position_lookup fe ns p tp
unfolding tuner_satelite_position_lookup
lookup-inuse fe ns p tp b = rw (find_sat_list-inuse ns tp b) refl

-- TunerAlloc gives a tuner if and only if TunerAvailable does, and the one it gives reaches the position.
pub alloc-reaches :
    (fe : FeTypes) (ns : List SatLists) (limits : Limits) (k : Option ℕ) (p : ℤ)
    (pool : List TunerPool) (i : ℕ)
    → (tuner_alloc fe ns limits k p pool).0 ≡ some i
    → tuner_satelite_position_lookup fe ns p
        (get_or (tuner_alloc fe ns limits k p pool).1 i free_tuner)
      ≡ true
alloc-reaches fe ns limits k p pool i e = elim (tuner_alloc_lem fe ns limits k p pool) [
  | inl (nothing, why) ↦ absurd (grind (arith, ap (λ r. r.0) nothing, e))
  | inr (j, below, room, usable, taken, counted) ↦
      let same : j ≡ i = grind (arith, ap (λ r. r.0) taken, e) in
      let tp : TunerPool = get_or pool j free_tuner in
      let reaches : tuner_satelite_position_lookup fe ns p
            (get_or (tuner_alloc fe ns limits k p pool).1 j free_tuner)
          ≡ true =
        rw (taken, get_or-set_self pool j (record tp { inuse = true }) free_tuner below)
          (lookup-inuse fe ns p tp true ∙ usable.2) in
      subst
        (λ n.
          tuner_satelite_position_lookup fe ns p
            (get_or (tuner_alloc fe ns limits k p pool).1 n free_tuner)
          ≡ true)
        same reaches
]

pub alloc-available :
    (fe : FeTypes) (ns : List SatLists) (limits : Limits) (k : Option ℕ) (p : ℤ)
    (pool : List TunerPool)
    → (tuner_alloc fe ns limits k p pool).0 ≡ tuner_available fe ns limits k p pool
unfolding tuner_alloc
alloc-available fe ns limits k p pool =
    elim (Option-cases (tuner_available fe ns limits k p pool)) [
      | inl e ↦ rw (tuner_alloc, e) refl
      | inr (i, e) ↦ rw (tuner_alloc, e) refl
    ]
