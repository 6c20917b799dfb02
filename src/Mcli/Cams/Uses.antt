-- ===== src/Mcli/Cams/Uses.antt =====
-- How often the CAMs of the pool are in use behind CAMAlloc and CAMFree of mcli.c.
use vdr_plugin_mcli.Prelude.{
  ℕ, zero, suc, if_both, ◌∷◌, ◌+◌, ◌-◌, ◌<◌, ◌==◌, ◌≡◌, refl, ap, ◌⊎◌, inl, inr, Option, none, some,
  List, [], arith, if◌then◌else◌, length, get_or, get_or-out, field-set, ◌∙◌,
}
use vdr_plugin_mcli.Mcli.Cams.{CamPool, free_cam, is_of, cam_alloc, cam_free, cam_pool_del}
use vdr_plugin_mcli.Mcli.Cams.Alloc.{cam_alloc_lem}

-- cp->use of the entry with an index.
abbrev pub uses_at : List CamPool → ℕ → ℕ
uses_at pool j = (get_or pool j free_cam).use_count

pub uses_at-free :
    (pool : List CamPool) (i j : ℕ)
    → uses_at (cam_free i pool).1 j ≡ (if i == j then uses_at pool i - 1 else uses_at pool j)
unfolding cam_free
uses_at-free pool i j =
    field-set (λ cp. cp.use_count) pool i j _ free_cam
      (λ le. rw (get_or-out pool i free_cam le) refl)
    ∙ ground arith

pub uses_at-alloc :
    (uuid : Option (List ℕ)) (slot : Option ℕ) (pool : List CamPool)
    → (cam_alloc uuid slot pool ≡ (none, pool))
      ⊎ ((i : ℕ) × (i < length pool)
          × ((cam_alloc uuid slot pool).0 ≡ some i)
          × ((j : ℕ)
              → uses_at (cam_alloc uuid slot pool).1 j
                ≡ (if i == j then uses_at pool i + 1 else uses_at pool j)))
uses_at-alloc uuid slot pool = elim (cam_alloc_lem uuid slot pool) [
  | inl (nothing, why) ↦ inl nothing
  | inr (i, below, serves, taken) ↦ inr (
    i,
    below,
    ap (λ r. r.0) taken,
    λ j. rw taken (
        field-set (λ cp. cp.use_count) pool i j
          (record (get_or pool i free_cam) { use_count = uses_at pool i + 1 }) free_cam
          (λ le. absurd (omega (arith, below, le)))),
  )
]

-- CAMPoolDel leaves the uses as they are.
pub uses_at-del :
    (uuid : List ℕ) (pool : List CamPool) (j : ℕ)
    → uses_at (cam_pool_del uuid pool).1 j ≡ uses_at pool j
unfolding cam_pool_del
uses_at-del uuid [] j = refl
uses_at-del uuid (cp ∷ pool) zero =
    if_both (λ (r : CamPool). r.use_count ≡ cp.use_count) (is_of uuid cp) (record cp { max = none })
      cp (λ e. refl) λ e. refl
uses_at-del uuid (cp ∷ pool) (suc j) = uses_at-del uuid pool j
