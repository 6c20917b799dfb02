-- ===== src/Mcli/Scan/Follow.antt =====
-- The round of cPluginMcli::Action in mcli.c: the pool of tuners follows the NetCeivers.
use vdr_plugin_mcli.Prelude.{
  ℕ, ◌<◌, ◌≡◌, ◌≢◌, refl, sym, ap, ◌∙◌, ◌⊎◌, inl, inr, true, false, not, ◌&&◌, none, some,
  Option-cases, List, [], ◌∷◌, arith, length, get_or, set, All, All-get_or, find_index,
  find_index-some, find_index-none, get_or-set_self, length-set, same_text, same_text_refl,
}
use vdr_plugin_mcli.Mcli.Tuners.{
  TunerInfo, TunerPool, free_tuner, is_taken, tuner_find_by_uuid, tuner_pool_add,
}
use vdr_plugin_mcli.Mcli.Scan.{Round, unwanted, scan_tuner}

-- An entry of the UUID is found.
found_at :
    (uuid : List ℕ) (pool : List TunerPool) (i : ℕ)
    → i < length pool
    → is_taken (get_or pool i free_tuner) ≡ true
    → (get_or pool i free_tuner).uuid ≡ uuid
    → tuner_find_by_uuid uuid pool ≢ none
unfolding tuner_find_by_uuid
found_at uuid pool i h taken u e =
    let absent = find_index-none (λ tp. is_taken tp && same_text tp.uuid uuid) pool e in
    let miss =
      All-get_or (λ tp. (is_taken tp && same_text tp.uuid uuid) ≡ false) pool i free_tuner absent
        refl in
    let hit : (is_taken (get_or pool i free_tuner)
          && same_text (get_or pool i free_tuner).uuid uuid)
        ≡ true =
      rw (taken, u, same_text_refl uuid) refl in
    grind (arith, miss, hit)

tuner_pool_add_lem :
    (t : TunerInfo) (pool : List TunerPool)
    → ((tuner_pool_add t pool ≡ (false, pool)) × All (λ tp. not (is_taken tp) ≡ false) pool)
      ⊎ (((tuner_pool_add t pool).0 ≡ true)
          × (tuner_find_by_uuid t.uuid (tuner_pool_add t pool).1 ≢ none))
unfolding tuner_pool_add
tuner_pool_add_lem t pool = elim (Option-cases (find_index (λ tp. not (is_taken tp)) pool)) [
  | inl e ↦ inl (rw (tuner_pool_add, e) refl, find_index-none (λ tp. not (is_taken tp)) pool e)
  | inr (i, e) ↦
      let (below, free) = find_index-some (λ tp. not (is_taken tp)) pool i free_tuner e in
      let new : TunerPool = record (get_or pool i free_tuner) {
        kind = some t.kind;
        uuid = t.uuid;
        sat_list_name = t.sat_list_name;
      } in
      let self = get_or-set_self pool i new free_tuner below in
      inr (
        rw (tuner_pool_add, e) refl,
        rw (tuner_pool_add, e)
            (found_at t.uuid (set pool i new) i (rw (length-set pool i new) below)
              (ap is_taken self) (ap (λ tp. tp.uuid) self)),
      )
]

All-taken :
    (pool : List TunerPool)
    → All (λ tp. not (is_taken tp) ≡ false) pool
    → All (λ tp. is_taken tp ≡ true) pool
All-taken [] h = tt
All-taken (tp ∷ pool) h = (ground (arith, h.0), All-taken pool h.1)

-- After its turn in a round, a tuner that is present, preferred and has a UUID is in the pool, unless
-- the pool is full and left as it is.
pub scan_tuner-found :
    (t : TunerInfo) (s : Round)
    → unwanted false t ≡ false
    → (tuner_find_by_uuid t.uuid (scan_tuner false t s).tuners ≢ none)
      ⊎ (((scan_tuner false t s).tuners ≡ s.tuners) × All (λ tp. is_taken tp ≡ true) s.tuners)
unfolding scan_tuner
scan_tuner-found t s h = elim (Option-cases (tuner_find_by_uuid t.uuid s.tuners)) [
  | inr (i, e) ↦ inl (rw (scan_tuner, h, e) (λ q. grind (arith, sym e ∙ q)))
  | inl e ↦ elim (tuner_pool_add_lem t s.tuners) [
    | inl (nothing, full) ↦
        inr (rw (scan_tuner, h, e) (ap (λ r. r.1) nothing), All-taken s.tuners full)
    | inr (ok, found) ↦ inl (rw (scan_tuner, h, e) found)
  ]
]
