-- ===== src/Mcli/Cams/Known.antt =====
-- CAMPoolAdd and CAMPoolDel of mcli.c: which CAMs the pool knows.
use native.Mathlib.Decide.{ℕ_discrete}
use vdr_plugin_mcli.Prelude.{
  ℕ, zero, suc, ◌<◌, ◌≡◌, ◌≢◌, refl, sym, ap, subst, ◌∙◌, inl, inr, Bool, true, false, Bool-cases,
  not, Option, none, some, Option-cases, List, [], ◌∷◌, map, arith, ◌==◌, if◌then◌else◌, length,
  replicate, length-set, get_or, set, All-get_or, find_index, shift, find_index-some,
  find_index-none, get_or-set_self, get_or-set_ne, same_text, same_text-eq, same_text_refl,
}
use vdr_plugin_mcli.Mcli.Cams.{
  CamPool, CamInfo, Cams, free_cam, is_known, is_cam, is_of, cam_find_by_uuid, cam_pool_find_free,
  refresh_cam, put_cam, cam_pool_add, cam_pool_del,
}

-- Two known entries are not of one NetCeiver and one slot.
pub Keyed : List CamPool → Type 0
Keyed pool =
    (i j : ℕ)
    → i < length pool
    → j < length pool
    → is_known (get_or pool i free_cam).max ≡ true
    → is_known (get_or pool j free_cam).max ≡ true
    → (get_or pool i free_cam).uuid ≡ (get_or pool j free_cam).uuid
    → (get_or pool i free_cam).slot ≡ (get_or pool j free_cam).slot
    → i ≡ j

-- No known entry but that at `i` is of the UUID and the slot.
abbrev Unclaimed : List CamPool → ℕ → List ℕ → ℕ → Type 0
Unclaimed pool i uuid slot =
    (j : ℕ)
    → j < length pool
    → j ≢ i
    → is_known (get_or pool j free_cam).max ≡ true
    → (get_or pool j free_cam).uuid ≡ uuid
    → (get_or pool j free_cam).slot ≢ slot

Keyed-set :
    (pool : List CamPool) (i : ℕ) (cp : CamPool)
    → i < length pool
    → Unclaimed pool i cp.uuid cp.slot
    → Keyed pool
    → Keyed (set pool i cp)
unfolding Keyed
Keyed-set pool i cp h alone keyed a b ha hb ka kb u s =
    let la : a < length pool = rw⁻¹ (length-set pool i cp) ha in
    let lb : b < length pool = rw⁻¹ (length-set pool i cp) hb in
    let self = get_or-set_self pool i cp free_cam h in
    elim (ℕ_discrete i a) [
      | yes ia ↦ elim (ℕ_discrete i b) [
        | yes ib ↦ sym ia ∙ ib
        | no ib ↦
            let ea : get_or (set pool i cp) a free_cam ≡ cp =
              subst (λ k. get_or (set pool i cp) k free_cam ≡ cp) ia self in
            let eb = get_or-set_ne pool i b cp free_cam ib in
            absurd (
              alone b lb (λ e. ib (sym e)) (subst (λ e. is_known e.max ≡ true) eb kb)
                (sym (ap (λ e. e.uuid) eb) ∙ sym u ∙ ap (λ e. e.uuid) ea)
                (sym (ap (λ e. e.slot) eb) ∙ sym s ∙ ap (λ e. e.slot) ea))
      ]
      | no ia ↦
          let ea = get_or-set_ne pool i a cp free_cam ia in
          let ka' : is_known (get_or pool a free_cam).max ≡ true =
            subst (λ e. is_known e.max ≡ true) ea ka in
          elim (ℕ_discrete i b) [
            | yes ib ↦
                let eb : get_or (set pool i cp) b free_cam ≡ cp =
                  subst (λ k. get_or (set pool i cp) k free_cam ≡ cp) ib self in
                absurd (
                  alone a la (λ e. ia (sym e)) ka'
                    (sym (ap (λ e. e.uuid) ea) ∙ u ∙ ap (λ e. e.uuid) eb)
                    (sym (ap (λ e. e.slot) ea) ∙ s ∙ ap (λ e. e.slot) eb))
            | no ib ↦
                let eb = get_or-set_ne pool i b cp free_cam ib in
                keyed a b la lb ka' (subst (λ e. is_known e.max ≡ true) eb kb)
                  (sym (ap (λ e. e.uuid) ea) ∙ u ∙ ap (λ e. e.uuid) eb)
                  (sym (ap (λ e. e.slot) ea) ∙ s ∙ ap (λ e. e.slot) eb)
          ]
    ]

-- What the test of CAMFindByUUID says of an entry.
is_cam-parts :
    (uuid : List ℕ) (slot : ℕ) (cp : CamPool)
    → is_cam uuid (some slot) cp ≡ true
    → (is_known cp.max ≡ true) × (cp.uuid ≡ uuid) × (cp.slot ≡ slot)
is_cam-parts uuid slot cp e = elim (Bool-cases (same_text cp.uuid uuid)) [
  | inl t ↦ (ground (arith, e), same_text-eq cp.uuid uuid t, ground (arith, e))
  | inr t ↦ absurd (ground (arith, e, t))
]

is_cam-intro :
    (uuid : List ℕ) (slot : ℕ) (cp : CamPool)
    → is_known cp.max ≡ true
    → cp.uuid ≡ uuid
    → cp.slot ≡ slot
    → is_cam uuid (some slot) cp ≡ true
is_cam-intro uuid slot cp k u s = rw (k, u, same_text_refl uuid) (ground (arith, s))

put_known-Keyed :
    (skip : Bool) (uuid : List ℕ) (c : CamInfo) (i : ℕ) (s : Cams)
    → cam_find_by_uuid uuid (some c.slot) s.pool ≡ some i
    → Keyed s.pool
    → Keyed (put_cam skip uuid c true i s).pool
unfolding cam_find_by_uuid refresh_cam Keyed
put_known-Keyed skip uuid c i s e keyed =
    let cp : CamPool = get_or s.pool i free_cam in
    let (below, found) = find_index-some (is_cam uuid (some c.slot)) s.pool i free_cam e in
    let (known, of_uuid, of_slot) = is_cam-parts uuid c.slot cp found in
    Keyed-set s.pool i (refresh_cam skip uuid c true cp) below
      (λ j lj ne kj u t. ne (keyed j i lj below kj known u t)) keyed

put_new-Keyed :
    (skip : Bool) (uuid : List ℕ) (c : CamInfo) (i : ℕ) (s : Cams)
    → cam_find_by_uuid uuid (some c.slot) s.pool ≡ none
    → cam_pool_find_free s.pool ≡ some i
    → Keyed s.pool
    → Keyed (put_cam skip uuid c false i s).pool
unfolding cam_find_by_uuid cam_pool_find_free refresh_cam
put_new-Keyed skip uuid c i s e f keyed =
    let (below, free) = find_index-some (λ cp. not (is_known cp.max)) s.pool i free_cam f in
    let absent = find_index-none (is_cam uuid (some c.slot)) s.pool e in
    Keyed-set s.pool i (refresh_cam skip uuid c false (get_or s.pool i free_cam)) below
      (λ j lj ne kj u t.
        let not_found =
          All-get_or (λ cp. is_cam uuid (some c.slot) cp ≡ false) s.pool j free_cam absent refl in
        grind (arith, not_found, is_cam-intro uuid c.slot (get_or s.pool j free_cam) kj u t))
      keyed

-- CAMPoolAdd keeps it that no two known entries of the pool are of one NetCeiver and one slot.
pub cam_pool_add-Keyed :
    (skip : Bool) (uuid : List ℕ) (cs : List CamInfo) (ret : ℕ) (s : Cams)
    → Keyed s.pool
    → Keyed (cam_pool_add skip uuid cs ret s).1.pool
unfolding cam_pool_add
cam_pool_add-Keyed skip uuid [] ret s keyed = keyed
cam_pool_add-Keyed skip uuid (c ∷ cs) ret s keyed =
    elim (Option-cases (cam_find_by_uuid uuid (some c.slot) s.pool)) [
      | inr (i, e) ↦
          rw (cam_pool_add, e)
            (cam_pool_add-Keyed skip uuid cs 2 (put_cam skip uuid c true i s)
              (put_known-Keyed skip uuid c i s e keyed))
      | inl e ↦ elim (Option-cases (cam_pool_find_free s.pool)) [
        | inl f ↦ rw (cam_pool_add, e, f) keyed
        | inr (i, f) ↦
            rw (cam_pool_add, e, f)
              (cam_pool_add-Keyed skip uuid cs (if ret == 0 then 1 else ret)
                (put_cam skip uuid c false i s) (put_new-Keyed skip uuid c i s e f keyed))
      ]
    ]

-- The entry of CAMPoolDel.
abbrev cleared : List ℕ → CamPool → CamPool
cleared uuid cp = if is_of uuid cp then record cp { max = none } else cp

same_is_cam :
    (uuid other : List ℕ) (slot : Option ℕ) (cp : CamPool)
    → uuid ≢ other
    → is_cam other slot (cleared uuid cp) ≡ is_cam other slot cp
same_is_cam uuid other slot cp ne = elim (Bool-cases (same_text cp.uuid uuid)) [
  | inr t ↦ rw t (ground arith)
  | inl t ↦ elim (Bool-cases (same_text cp.uuid other)) [
    | inl o ↦ absurd (ne (sym (same_text-eq cp.uuid uuid t) ∙ same_text-eq cp.uuid other o))
    | inr o ↦ ground (arith, t, o)
  ]
]

cleared-is_cam :
    (uuid : List ℕ) (slot : Option ℕ) (cp : CamPool) → is_cam uuid slot (cleared uuid cp) ≡ false
cleared-is_cam uuid slot cp = elim (Bool-cases (is_of uuid cp)) [
  | inl h ↦ rw h refl
  | inr h ↦ ground (arith, h)
]

-- After CAMPoolDel no CAM of the UUID is found, in any slot, and those of another UUID as before.
pub cam_pool_del_lem :
    (uuid other : List ℕ) (slot : Option ℕ) (pool : List CamPool)
    → uuid ≢ other
    → (cam_find_by_uuid uuid slot (cam_pool_del uuid pool).1 ≡ none)
      × (cam_find_by_uuid other slot (cam_pool_del uuid pool).1 ≡ cam_find_by_uuid other slot pool)
unfolding cam_find_by_uuid cam_pool_del find_index
cam_pool_del_lem uuid other slot [] ne = (refl, refl)
cam_pool_del_lem uuid other slot (cp ∷ pool) ne =
    let (gone, kept) = cam_pool_del_lem uuid other slot pool ne in
    (
      subst
          (λ b.
            (if b then some 0 else shift (find_index (is_cam uuid slot) (map (cleared uuid) pool)))
            ≡ none)
          (sym (cleared-is_cam uuid slot cp)) (ap shift gone),
      subst
          (λ b.
            (if b then some 0 else shift (find_index (is_cam other slot) (map (cleared uuid) pool)))
            ≡ (if is_cam other slot cp
                then some 0
                else shift (find_index (is_cam other slot) pool)))
          (sym (same_is_cam uuid other slot cp ne))
          (ap (λ o. if is_cam other slot cp then some 0 else shift o) kept),
    )

get_or-free : (n j : ℕ) → get_or (replicate n free_cam) j free_cam ≡ free_cam
get_or-free zero j = refl
get_or-free (suc n) zero = refl
get_or-free (suc n) (suc j) = get_or-free n j

not_known : (cp : CamPool) → cp ≡ free_cam → is_known cp.max ≡ true → ⊥
not_known cp e k = absurd (cc (e, k))

-- A pool as the constructor leaves it, but for a first entry that is known.
pub first-Keyed : (cp : CamPool) (n : ℕ) → Keyed (cp ∷ replicate n free_cam)
unfolding Keyed
first-Keyed cp n zero zero hi hj ki kj u s = refl
first-Keyed cp n zero (suc j) hi hj ki kj u s = absurd (not_known _ (get_or-free n j) kj)
first-Keyed cp n (suc i) j hi hj ki kj u s = absurd (not_known _ (get_or-free n i) ki)
