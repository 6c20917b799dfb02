-- ===== src/Mcli/Scan/Kept.antt =====
-- The round over the NetCeivers in mcli.c leaves the tuners in use and the uses of CAMs as they are.
use vdr_plugin_mcli.Prelude.{
  ℕ, ◌≡◌, refl, sym, ap, subst, ◌∙◌, Bool, true, false, List, [], ◌∷◌, All, if_both, option_both,
}
use vdr_plugin_mcli.Mcli.Tuners.{TunerInfo, tuner_find_by_uuid, tuner_pool_add}
use vdr_plugin_mcli.Mcli.Tuners.Inuse.{inuse_at, inuse_at-add, inuse_at-del}
use vdr_plugin_mcli.Mcli.Cams.Uses.{uses_at, uses_at-del}
use vdr_plugin_mcli.Mcli.Cams.Kept.{Settled, Kept, cam_pool_add-Kept, cam_pool_del-Settled}
use vdr_plugin_mcli.Mcli.Scan.{
  NetceiverInfo, Round, overdue, unwanted, scan_tuner, scan_tuners, scan_cams, scan,
}

-- The tuners in use, and the CAMs.
abbrev Same : Round → Round → Type 0
Same s s' = ((j : ℕ) → inuse_at s'.tuners j ≡ inuse_at s.tuners j) × (s'.cams ≡ s.cams)

scan_tuner-Same : (late : Bool) (t : TunerInfo) (s : Round) → Same s (scan_tuner late t s)
unfolding scan_tuner
scan_tuner-Same late t s =
    let found = tuner_find_by_uuid t.uuid s.tuners in
    if_both (Same s) (unwanted late t) _ _
      (λ e.
        option_both (Same s) found _ _ (λ f. (λ j. refl, refl))
          (λ i f. (λ j. inuse_at-del i s.tuners j, refl)))
      (λ e.
        option_both (Same s) found
          (record s {
            tuners = (tuner_pool_add t s.tuners).1;
            changed = true;
            added = (tuner_pool_add t s.tuners).0;
          })
          (λ i. s) (λ f. (λ j. inuse_at-add t s.tuners j, refl)) (λ i f. (λ j. refl, refl)))

scan_tuners-Same : (late : Bool) (ts : List TunerInfo) (s : Round) → Same s (scan_tuners late ts s)
unfolding scan_tuners
scan_tuners-Same late [] s = (λ j. refl, refl)
scan_tuners-Same late (t ∷ ts) s =
    let first = scan_tuner-Same late t s in
    let rest = scan_tuners-Same late ts (scan_tuner late t s) in
    (λ j. rest.0 j ∙ first.0 j, rest.1 ∙ first.1)

-- The NetCeivers that are overdue are gone.
abbrev pub Gone : (gone : List ℕ → Bool) (now : ℕ) → List NetceiverInfo → Type 0
Gone gone now ns = All (λ n. overdue now n.lastseen ≡ true → gone n.uuid ≡ true) ns

scan_cams-Kept :
    (gone : List ℕ → Bool) (skip late : Bool) (n : NetceiverInfo) (s : Round)
    → (late ≡ true → gone n.uuid ≡ true)
    → All (Settled gone) s.cams.pool
    → Kept gone s.cams (scan_cams skip late n s).cams
      × ((scan_cams skip late n s).tuners ≡ s.tuners)
unfolding scan_cams
scan_cams-Kept gone skip true n s h a = (
  (cam_pool_del-Settled gone n.uuid s.cams.pool (h refl) a, λ j. uses_at-del n.uuid s.cams.pool j),
  refl,
)
scan_cams-Kept gone skip false n s h a =
    (cam_pool_add-Kept gone skip n.uuid n.cams 0 s.cams a, refl)

-- If no CAM of a NetCeiver that is overdue is in use, the round changes neither which tuners are in
-- use nor the uses of CAMs.
pub scan-Kept :
    (gone : List ℕ → Bool) (skip : Bool) (now : ℕ) (ns : List NetceiverInfo) (s : Round)
    → Gone gone now ns
    → All (Settled gone) s.cams.pool
    → Kept gone s.cams (scan skip now ns s).cams
      × ((j : ℕ) → inuse_at (scan skip now ns s).tuners j ≡ inuse_at s.tuners j)
unfolding scan
scan-Kept gone skip now [] s g a = ((a, λ j. refl), λ j. refl)
scan-Kept gone skip now (n ∷ ns) s g a =
    let late = overdue now n.lastseen in
    let s1 = scan_cams skip late n s in
    let s2 = scan_tuners late n.tuners s1 in
    let k = scan_cams-Kept gone skip late n s g.0 a in
    let t = scan_tuners-Same late n.tuners s1 in
    let a2 : All (Settled gone) s2.cams.pool =
      subst (λ c. All (Settled gone) c.pool) (sym t.1) k.0.0 in
    let r = scan-Kept gone skip now ns s2 g.1 a2 in
    (
      (r.0.0, λ j. r.0.1 j ∙ ap (λ c. uses_at c.pool j) t.1 ∙ k.0.1 j),
      λ j. r.1 j ∙ t.0 j ∙ ap (λ ts. inuse_at ts j) k.1,
    )
