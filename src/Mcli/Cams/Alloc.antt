-- ===== src/Mcli/Cams/Alloc.antt =====
-- CAMAlloc and CAMFree of mcli.c.
use vdr_plugin_mcli.Prelude.{
  ℕ, ◌+◌, ◌-◌, ◌<◌, ◌≡◌, ◌≢◌, refl, sym, ap, ap₂, ◌∙◌, ◌⊎◌, inl, inr, Bool, true, false, ◌&&◌,
  Option, none, some, Option-cases, List, [], ◌∷◌, arith, ltb, if◌then◌else◌, length, get_or, set,
  All, find_index, find_index-some, find_index-none, set-set, get_or-set_self, same_text-eq,
  same_text_refl,
}
use vdr_plugin_mcli.Mcli.Cams.{
  CamPool, free_cam, is_available, has_room, uuid_fits, slot_fits, cam_available, cam_alloc,
  cam_free,
}

true-ne-false : true ≢ false
true-ne-false e = absurd (cc (e))

and_both : (a b : Bool) → (a && b) ≡ true → (a ≡ true) × (b ≡ true)
and_both true b e = (refl, e)
and_both false b e = absurd (grind (arith, e))

-- A CAM is allocated within its limit.
abbrev pub Within : CamPool → Type 0
Within cp = (n : ℕ) × (cp.max ≡ some n) × (cp.use_count < n)

room_within :
    (m : Option ℕ) (used : ℕ)
    → elim m [ none ↦ false | some n ↦ ltb 0 n && ltb used n ] ≡ true
    → (n : ℕ) × (m ≡ some n) × (used < n)
room_within none used h = absurd (grind (arith, h))
room_within (some n) used h = (n, refl, ground (arith, h))

has_room-Within : (cp : CamPool) → has_room cp ≡ true → Within cp
has_room-Within cp h = room_within cp.max cp.use_count h

-- A CAM is one of the UUID that is asked for, and of the slot; `none` asks for any.
abbrev pub OfUuid : Option (List ℕ) → CamPool → Type 0
OfUuid none cp = Unit {0}
OfUuid (some uuid) cp = cp.uuid ≡ uuid

abbrev pub InSlot : Option ℕ → CamPool → Type 0
InSlot none cp = Unit {0}
InSlot (some slot) cp = cp.slot ≡ slot

-- A CAM that can serve one more: of the UUID and the slot, and used below its limit.
abbrev pub Serves : Option (List ℕ) → Option ℕ → CamPool → Type 0
Serves uuid slot cp = Within cp × OfUuid uuid cp × InSlot slot cp

uuid_fits-OfUuid :
    (uuid : Option (List ℕ)) (cp : CamPool) → uuid_fits uuid cp ≡ true → OfUuid uuid cp
uuid_fits-OfUuid none cp e = tt
uuid_fits-OfUuid (some uuid) cp e = same_text-eq cp.uuid uuid e

slot_fits-InSlot : (slot : Option ℕ) (cp : CamPool) → slot_fits slot cp.slot ≡ true → InSlot slot cp
slot_fits-InSlot none cp e = tt
slot_fits-InSlot (some slot) cp e = ground (arith, e)

Within-has_room : (cp : CamPool) → Within cp → has_room cp ≡ true
Within-has_room cp (n, limit, below) = rw limit (ground (arith, below))

OfUuid-uuid_fits :
    (uuid : Option (List ℕ)) (cp : CamPool) → OfUuid uuid cp → uuid_fits uuid cp ≡ true
OfUuid-uuid_fits none cp h = refl
OfUuid-uuid_fits (some uuid) cp h = rw h (same_text_refl uuid)

InSlot-slot_fits : (slot : Option ℕ) (cp : CamPool) → InSlot slot cp → slot_fits slot cp.slot ≡ true
InSlot-slot_fits none cp h = refl
InSlot-slot_fits (some slot) cp h = ground (arith, h)

-- The test of CAMAvailable is that for a CAM that can serve one more.
is_available-Serves :
    (uuid : Option (List ℕ)) (slot : Option ℕ) (cp : CamPool)
    → is_available uuid slot cp ≡ true
    → Serves uuid slot cp
is_available-Serves uuid slot cp e =
    let (both, slotted) = and_both (has_room cp && uuid_fits uuid cp) (slot_fits slot cp.slot) e in
    let (room, of_uuid) = and_both (has_room cp) (uuid_fits uuid cp) both in
    (has_room-Within cp room, uuid_fits-OfUuid uuid cp of_uuid, slot_fits-InSlot slot cp slotted)

Serves-is_available :
    (uuid : Option (List ℕ)) (slot : Option ℕ) (cp : CamPool)
    → Serves uuid slot cp
    → is_available uuid slot cp ≡ true
Serves-is_available uuid slot cp (within, of_uuid, in_slot) =
    ap₂ (λ a b. a && b)
      (ap₂ (λ a b. a && b) (Within-has_room cp within) (OfUuid-uuid_fits uuid cp of_uuid))
      (InSlot-slot_fits slot cp in_slot)

none_serve :
    (uuid : Option (List ℕ)) (slot : Option ℕ) (pool : List CamPool)
    → All (λ cp. is_available uuid slot cp ≡ false) pool
    → All (λ cp. ¬ Serves uuid slot cp) pool
none_serve uuid slot [] h = tt
none_serve uuid slot (cp ∷ pool) h = (
  λ (s : Serves uuid slot cp).
      let here : is_available uuid slot cp ≡ true = Serves-is_available uuid slot cp s in
      absurd (true-ne-false (sym here ∙ h.0)),
  none_serve uuid slot pool h.1,
)

-- CAMAlloc gives no CAM and changes nothing exactly if no CAM of the UUID and the slot is used
-- below its limit; otherwise it gives one that is, of the UUID and the slot, and one more use of
-- it.
pub cam_alloc_lem :
    (uuid : Option (List ℕ)) (slot : Option ℕ) (pool : List CamPool)
    → ((cam_alloc uuid slot pool ≡ (none, pool)) × All (λ cp. ¬ Serves uuid slot cp) pool)
      ⊎ ((i : ℕ) × (i < length pool)
          × Serves uuid slot (get_or pool i free_cam)
          × (cam_alloc uuid slot pool ≡ (
            some i,
            set pool i (record (get_or pool i free_cam) {
              use_count = (get_or pool i free_cam).use_count + 1;
            }),
          )))
unfolding cam_available cam_alloc
cam_alloc_lem uuid slot pool = elim (Option-cases (find_index (is_available uuid slot) pool)) [
  | inl e ↦ inl (
    rw (cam_alloc, e) refl,
    none_serve uuid slot pool (find_index-none (is_available uuid slot) pool e),
  )
  | inr (i, e) ↦
      let (below, fits) = find_index-some (is_available uuid slot) pool i free_cam e in
      inr (
        i,
        below,
        is_available-Serves uuid slot (get_or pool i free_cam) fits,
        rw (cam_alloc, e) refl,
      )
]

free-taken :
    (pool : List CamPool) (i : ℕ)
    → i < length pool
    → let cp = get_or pool i free_cam in
      (cam_free i (set pool i (record cp { use_count = cp.use_count + 1 }))).1 ≡ pool
unfolding cam_free
free-taken pool i h =
    let cp : CamPool = get_or pool i free_cam in
    let taken : CamPool = record cp { use_count = cp.use_count + 1 } in
    rw (get_or-set_self pool i taken free_cam h) (
      set-set pool i taken
        (record cp {
          use_count = if ltb 0 (cp.use_count + 1) then cp.use_count + 1 - 1 else cp.use_count + 1;
        })
        free_cam (ap (λ u. record cp { use_count = u }) (ground arith)) h)

-- CAMFree undoes CAMAlloc.
cam_free-alloc :
    (uuid : Option (List ℕ)) (slot : Option ℕ) (pool pool' : List CamPool) (i : ℕ)
    → cam_alloc uuid slot pool ≡ (some i, pool')
    → (cam_free i pool').1 ≡ pool
cam_free-alloc uuid slot pool pool' i e = elim (cam_alloc_lem uuid slot pool) [
  | inl (none_left, nothing) ↦ absurd (grind (arith, ap (λ r. r.0) none_left, ap (λ r. r.0) e))
  | inr (j, below, serves, taken) ↦
      let same : j ≡ i = grind (arith, ap (λ r. r.0) taken, ap (λ r. r.0) e) in
      let pools = ap (λ r. r.1) (sym taken ∙ e) in rw⁻¹ (pools, same) (free-taken pool j below)
]
