-- ===== src/Mcli/Tuners/Alloc.antt =====
-- TunerAlloc and TunerFree of mcli.c.
use vdr_plugin_mcli.Prelude.{
  ℕ, zero, suc, ◌+◌, ◌≤◌, ◌<◌, ◌≡◌, ◌≢◌, refl, sym, ap, ◌∙◌, ◌⊎◌, inl, inr, Bool, true, false,
  Bool-cases, ◌&&◌, not, Option, none, some, Option-cases, List, [], ◌∷◌, arith, if◌then◌else◌,
  length, get_or, set, All, find_index, find_index-some, find_index-none, set-set, get_or-set_self,
}
use vdr_plugin_mcli.Prelude.Int.{ℤ, pos, negsuc, eq_ℤ}
use vdr_plugin_mcli.Mcli.Tuners.{
  TunerPool, FeTypes, SatLists, Limits, free_tuner, is_kind, at_limit, is_usable,
  tuner_count_by_type, tuner_satelite_position_lookup, tuner_available, tuner_alloc, tuner_free,
}

-- Taking a tuner of a type adds one to the count of its type and none to that of another.
count-set :
    (k : Option ℕ) (pool : List TunerPool) (i : ℕ)
    → i < length pool
    → (get_or pool i free_tuner).inuse ≡ false
    → tuner_count_by_type k (set pool i (record (get_or pool i free_tuner) { inuse = true }))
      ≡ (if is_kind k (get_or pool i free_tuner) then 1 else 0) + tuner_count_by_type k pool
unfolding tuner_count_by_type
count-set k [] i h free = absurd (omega (arith, h))
count-set k (tp ∷ pool) zero h free = ground (arith, free)
count-set k (tp ∷ pool) (suc i) h free = omega (arith, count-set k pool i (omega (arith, h)) free)

eq_ℤ-eq : (a b : ℤ) → eq_ℤ a b ≡ true → b ≡ a
unfolding eq_ℤ
eq_ℤ-eq (pos m) (pos n) e = ap pos (ground (arith, e))
eq_ℤ-eq (negsuc m) (negsuc n) e = ap negsuc (ground (arith, e))
eq_ℤ-eq (pos m) (negsuc n) e = absurd (grind (arith, e))
eq_ℤ-eq (negsuc m) (pos n) e = absurd (grind (arith, e))

pos-ne : (m n : ℕ) → eq_ℤ (pos m) (pos n) ≡ false → m ≢ n
unfolding eq_ℤ
pos-ne m n e h = ground (arith, e, h)

-- A tuner that is free, of the type, and reaches the position.
abbrev pub Usable : FeTypes → List SatLists → Option ℕ → ℤ → TunerPool → Type 0
Usable fe ns k p tp =
    (tp.inuse ≡ false) × (is_kind k tp ≡ true) × (tuner_satelite_position_lookup fe ns p tp ≡ true)

usable_parts : (a b c : Bool) → (not a && b && c) ≡ true → (a ≡ false) × (b ≡ true) × (c ≡ true)
usable_parts false true true e = (refl, refl, refl)
usable_parts false true false e = absurd (grind (arith, e))
usable_parts false false c e = absurd (grind (arith, e))
usable_parts true b c e = absurd (grind (arith, e))

-- TunerAlloc gives no tuner and changes nothing if the tuners in use of the type are as many as the
-- limit, or if no tuner of the type that reaches the position is free; otherwise the limit is not met,
-- and it gives one that is free, of the type and reaches the position, and marks it, so that one more of the type is in use.
pub tuner_alloc_lem :
    (fe : FeTypes) (ns : List SatLists) (limits : Limits) (k : Option ℕ) (p : ℤ)
    (pool : List TunerPool)
    → ((tuner_alloc fe ns limits k p pool ≡ (none, pool))
        × ((limits k ≡ pos (tuner_count_by_type k pool))
            ⊎ All (λ tp. is_usable fe ns k p tp ≡ false) pool))
      ⊎ ((i : ℕ) × (i < length pool)
          × (at_limit (tuner_count_by_type k pool) (limits k) ≡ false)
          × Usable fe ns k p (get_or pool i free_tuner)
          × (tuner_alloc fe ns limits k p pool
              ≡ (some i, set pool i (record (get_or pool i free_tuner) { inuse = true })))
          × (tuner_count_by_type k (tuner_alloc fe ns limits k p pool).1
              ≡ tuner_count_by_type k pool + 1))
unfolding tuner_available tuner_alloc
tuner_alloc_lem fe ns limits k p pool =
    elim (Bool-cases (at_limit (tuner_count_by_type k pool) (limits k))) [
      | inl full ↦ inl (
        rw (tuner_alloc, full) refl,
        inl (eq_ℤ-eq (pos (tuner_count_by_type k pool)) (limits k) full),
      )
      | inr room ↦ elim (Option-cases (find_index (is_usable fe ns k p) pool)) [
        | inl e ↦
            inl (rw (tuner_alloc, room, e) refl, inr (find_index-none (is_usable fe ns k p) pool e))
        | inr (i, e) ↦
            let tp : TunerPool = get_or pool i free_tuner in
            let (below, fits) = find_index-some (is_usable fe ns k p) pool i free_tuner e in
            let usable =
              usable_parts tp.inuse (is_kind k tp) (tuner_satelite_position_lookup fe ns p tp)
                fits in
            let counted = count-set k pool i below usable.0 in
            inr (
              i,
              below,
              room,
              usable,
              rw (tuner_alloc, room, e) refl,
              rw (tuner_alloc, room, e) (ground (arith, counted, usable.1)),
            )
      ]
    ]

-- TunerAlloc keeps the number of tuners in use of its type within the limit, if it was, for a limit
-- that is not negative.
pub tuner_alloc-within :
    (fe : FeTypes) (ns : List SatLists) (limits : Limits) (k : Option ℕ) (p : ℤ)
    (pool : List TunerPool) (limit : ℕ)
    → limits k ≡ pos limit
    → tuner_count_by_type k pool ≤ limit
    → tuner_count_by_type k (tuner_alloc fe ns limits k p pool).1 ≤ limit
tuner_alloc-within fe ns limits k p pool limit e h = elim (tuner_alloc_lem fe ns limits k p pool) [
  | inl (nothing, why) ↦ rw nothing h
  | inr (i, below, room, usable, taken, counted) ↦
      let free : eq_ℤ (pos (tuner_count_by_type k pool)) (pos limit) ≡ false = rw⁻¹ e room in
      omega (arith, counted, h, pos-ne (tuner_count_by_type k pool) limit free)
]

free-taken :
    (pool : List TunerPool) (i : ℕ)
    → i < length pool
    → (get_or pool i free_tuner).inuse ≡ false
    → tuner_free i (set pool i (record (get_or pool i free_tuner) { inuse = true })) ≡ (true, pool)
unfolding tuner_free
free-taken pool i h free =
    let tp : TunerPool = get_or pool i free_tuner in
    let taken : TunerPool = record tp { inuse = true } in
    rw (get_or-set_self pool i taken free_tuner h) (
      ap (λ q. (true, q))
        (set-set pool i taken (record tp { inuse = false }) free_tuner
          (ap (λ u. record tp { inuse = u }) (sym free)) h))

-- TunerFree undoes TunerAlloc.
tuner_free-alloc :
    (fe : FeTypes) (ns : List SatLists) (limits : Limits) (k : Option ℕ) (p : ℤ)
    (pool pool' : List TunerPool)
    → (i : ℕ) → tuner_alloc fe ns limits k p pool ≡ (some i, pool')
    → tuner_free i pool' ≡ (true, pool)
tuner_free-alloc fe ns limits k p pool pool' i e = elim (tuner_alloc_lem fe ns limits k p pool) [
  | inl (nothing, why) ↦ absurd (grind (arith, ap (λ r. r.0) nothing, ap (λ r. r.0) e))
  | inr (j, below, room, usable, taken, counted) ↦
      let same : j ≡ i = grind (arith, ap (λ r. r.0) taken, ap (λ r. r.0) e) in
      let pools = ap (λ r. r.1) (sym taken ∙ e) in
      rw⁻¹ (pools, same) (free-taken pool j below usable.0)
]
