-- ===== src/Mcli/Cams/Kept.antt =====
-- The round over the CAMs of the NetCeivers in mcli.c, CAMPoolAdd and CAMPoolDel, leaves the uses of
-- CAMs as they are, if it loses no CAM that is in use.
use vdr_plugin_mcli.Prelude.{
  ◌&&◌, same_text-eq, set, not, ◌||◌, All, All-set, All-get_or, field-keep, find_index-some,
  option_both, Bool, true, false, ℕ, if_both, ◌∷◌, ◌==◌, ◌≡◌, refl, ap, Option, some, List, [],
  arith, get_or, ◌∙◌,
}
use vdr_plugin_mcli.Mcli.Cams.{
  CamPool, CamInfo, CamFlags, ca_single, ca_multi_sid, ca_multi_transponder, ca_other, Cams,
  is_known, new_max, flags_max, refresh_cam, put_cam, is_cam, cam_find_by_uuid, cam_pool_find_free,
  cam_pool_add, free_cam, is_of, cam_pool_del,
}
use vdr_plugin_mcli.Mcli.Cams.Uses.{uses_at}

-- An entry that is in use has a CAM, of a NetCeiver that is not `gone`.
abbrev pub Settled : (gone : List ℕ → Bool) → CamPool → Type 0
Settled gone cp = (cp.use_count == 0 || is_known cp.max && not (gone cp.uuid)) ≡ true

flags_known :
    (f : CamFlags) (sids : ℕ) (old : Option ℕ)
    → is_known old ≡ true
    → is_known (flags_max f sids old) ≡ true
flags_known ca_single sids old h = refl
flags_known ca_multi_sid sids old h = refl
flags_known ca_multi_transponder sids old h = refl
flags_known ca_other sids old h = h

known_stays : (c : CamInfo) (old : Option ℕ) → is_known old ≡ true → is_known (new_max c old) ≡ true
known_stays c old h =
    if_both (λ (o : Option ℕ). is_known o ≡ true) (c.status == 0) (some 0)
      (flags_max c.flags c.max_sids old) (λ e. refl) (λ e. flags_known c.flags c.max_sids old h)

-- What keeps the uses, and leaves no freed entry in use.
abbrev pub Kept : (gone : List ℕ → Bool) → Cams → Cams → Type 0
Kept gone s s' = All (Settled gone) s'.pool × ((j : ℕ) → uses_at s'.pool j ≡ uses_at s.pool j)

module _ (gone : List ℕ → Bool) where
  refresh_cam-update :
      (skip : Bool) (uuid : List ℕ) (c : CamInfo) (cp : CamPool)
      → is_known cp.max ≡ true
      → Settled gone cp
      → Settled gone (refresh_cam skip uuid c true cp)
        × ((refresh_cam skip uuid c true cp).use_count ≡ cp.use_count)
  unfolding refresh_cam
  refresh_cam-update skip uuid c cp h s = (ground (arith, h, s, known_stays c cp.max h), refl)

  refresh_cam-new :
      (skip : Bool) (uuid : List ℕ) (c : CamInfo) (cp : CamPool)
      → is_known cp.max ≡ false
      → Settled gone cp
      → Settled gone (refresh_cam skip uuid c false cp)
        × ((refresh_cam skip uuid c false cp).use_count ≡ cp.use_count)
  unfolding refresh_cam
  refresh_cam-new skip uuid c cp h s = (ground arith, ground (arith, h, s))

  -- A change of an entry that keeps its uses.
  put-uses :
      (pool : List CamPool) (i : ℕ) (cp : CamPool)
      → Settled gone cp
      → cp.use_count ≡ uses_at pool i
      → All (Settled gone) pool
      → All (Settled gone) (set pool i cp) × ((j : ℕ) → uses_at (set pool i cp) j ≡ uses_at pool j)
  put-uses pool i cp s e a = (
    All-set (Settled gone) pool i cp a s,
    λ j. field-keep (λ x. x.use_count) pool i j cp free_cam e,
  )

  pub Kept-trans : (s s1 s2 : Cams) → Kept gone s s1 → Kept gone s1 s2 → Kept gone s s2
  Kept-trans s s1 s2 k l = (l.0, λ j. l.1 j ∙ k.1 j)

  put_cam-Kept :
      (skip : Bool) (uuid : List ℕ) (c : CamInfo) (update : Bool) (i : ℕ) (s : Cams)
      → All (Settled gone) s.pool
      → is_known (get_or s.pool i free_cam).max ≡ update
      → Kept gone s (put_cam skip uuid c update i s)
  put_cam-Kept skip uuid c true i s a h =
      let r =
        refresh_cam-update skip uuid c (get_or s.pool i free_cam) h
          (All-get_or (Settled gone) s.pool i free_cam a refl) in
      put-uses s.pool i (refresh_cam skip uuid c true (get_or s.pool i free_cam)) r.0 r.1 a
  put_cam-Kept skip uuid c false i s a h =
      let r =
        refresh_cam-new skip uuid c (get_or s.pool i free_cam) h
          (All-get_or (Settled gone) s.pool i free_cam a refl) in
      put-uses s.pool i (refresh_cam skip uuid c false (get_or s.pool i free_cam)) r.0 r.1 a

  -- CAMPoolAdd leaves the uses as they are, where no freed entry is still in use.
  pub cam_pool_add-Kept :
      (skip : Bool) (uuid : List ℕ) (cs : List CamInfo) (ret : ℕ) (s : Cams)
      → All (Settled gone) s.pool
      → Kept gone s (cam_pool_add skip uuid cs ret s).1
  unfolding cam_pool_add cam_find_by_uuid cam_pool_find_free
  cam_pool_add-Kept skip uuid [] ret s a = (a, λ j. refl)
  cam_pool_add-Kept skip uuid (c ∷ cs) ret s a =
      let P : ℕ × Cams → Type 0 = λ r. Kept gone s r.1 in
      let step : (update : Bool) (i ret' : ℕ)
          → is_known (get_or s.pool i free_cam).max ≡ update
          → P (cam_pool_add skip uuid cs ret' (put_cam skip uuid c update i s)) =
        λ update i ret' h.
          let k = put_cam-Kept skip uuid c update i s a h in
          Kept-trans s (put_cam skip uuid c update i s)
            (cam_pool_add skip uuid cs ret' (put_cam skip uuid c update i s)).1 k
            (cam_pool_add-Kept skip uuid cs ret' (put_cam skip uuid c update i s) k.0) in
      option_both P (cam_find_by_uuid uuid (some c.slot) s.pool) _ _
        (λ e.
          option_both P (cam_pool_find_free s.pool) _ _ (λ f. (a, λ j. refl))
            (λ i f. step false i _ (
              ground
                (arith, (find_index-some (λ cp. not (is_known cp.max)) s.pool i free_cam f).1))))
        (λ i e.
          step true i _
            (ground (arith, (find_index-some (is_cam uuid (some c.slot)) s.pool i free_cam e).1)))

  -- CAMPoolDel of a NetCeiver that is gone.
  pub cam_pool_del-Settled :
      (uuid : List ℕ) (pool : List CamPool)
      → gone uuid ≡ true
      → All (Settled gone) pool
      → All (Settled gone) (cam_pool_del uuid pool).1
  unfolding cam_pool_del
  cam_pool_del-Settled uuid [] h a = tt
  cam_pool_del-Settled uuid (cp ∷ pool) h a = (
    if_both (Settled gone) (is_of uuid cp) _ _
        (λ e.
          let same : cp.uuid ≡ uuid = same_text-eq cp.uuid uuid (ground (arith, e)) in
          ground (arith, a.0, h, ap gone same))
        (λ e. a.0),
    cam_pool_del-Settled uuid pool h a.1,
  )
