-- ===== src/CamMenu/Update/Ends.antt =====
-- The loop of cNCUpdate (cam_menu.c) ends: each NetCeiver is written once.
use vdr_plugin_mcli.Prelude.{
  ℕ, zero, suc, ◌+◌, ◌*◌, ◌-◌, ◌≤◌, ◌<◌, ◌≡◌, refl, Bool, true, false, not, Option, none, some,
  List, [], ◌∷◌, if◌then◌else◌, if_both, option_both, subst, arith, same_text, same_text_refl,
}
use vdr_plugin_mcli.CamMenu.{CamMtd, mtd_modified}
use vdr_plugin_mcli.CamMenu.Patch.{Component, patch_all_cam_flags, patch_cam_flags}
use vdr_plugin_mcli.CamMenu.Update.{
  UpdateState, done, search, load, change, save, Status, up_to_date, NcUpdate, Answers, new_update,
  first_modified, case_search, case_change, update_round, update_action,
}

-- The number of items that are modified.
abbrev pub modified_items : List CamMtd → ℕ
modified_items [] = 0
modified_items (m ∷ ms) = (if mtd_modified m then 1 else 0) + modified_items ms

-- Of these, those of other NetCeivers.
abbrev pub other_items : (uuid : List ℕ) → List CamMtd → ℕ
other_items uuid [] = 0
other_items uuid (m ∷ ms) =
    (if same_text m.uuid uuid then 0 else (if mtd_modified m then 1 else 0)) + other_items uuid ms

other_items-le : (uuid : List ℕ) (ms : List CamMtd) → other_items uuid ms ≤ modified_items ms
other_items-le uuid [] = ground arith
other_items-le uuid (m ∷ ms) = ground (arith, other_items-le uuid ms)

-- What the search finds: nothing modified, or a NetCeiver with an item that is.
abbrev Found : Option CamMtd → List CamMtd → Type 0
Found none ms = modified_items ms ≡ 0
Found (some m) ms = other_items m.uuid ms < modified_items ms

Found-skip :
    (o : Option CamMtd) (m : CamMtd) (ms : List CamMtd)
    → mtd_modified m ≡ false
    → Found o ms
    → Found o (m ∷ ms)
Found-skip none m ms e h = ground (arith, e, h)
Found-skip (some x) m ms e h = ground (arith, e, h)

first_modified-Found : (ms : List CamMtd) → Found (first_modified ms) ms
unfolding first_modified
first_modified-Found [] = refl
first_modified-Found (m ∷ ms) =
    if_both (λ o. Found o (m ∷ ms)) (mtd_modified m) (some m) (first_modified ms)
      (λ e. rw (e, same_text_refl) (ground (arith, other_items-le m.uuid ms)))
      (λ e. Found-skip (first_modified ms) m ms e (first_modified-Found ms))

-- Where all flags of a NetCeiver are written, the items of others are left.
abbrev Left : (uuid : List ℕ) → List CamMtd → Bool × (List Component × List CamMtd) → Type 0
Left uuid ms out = out.0 ≡ true → modified_items out.1.1 ≡ other_items uuid ms

patch_all-Left :
    (itoa : ℕ → List ℕ) (uuid : List ℕ) (ms : List CamMtd) (doc : List Component)
    → Left uuid ms (patch_all_cam_flags itoa uuid ms doc)
unfolding patch_all_cam_flags
patch_all-Left itoa uuid [] doc = λ h. refl
patch_all-Left itoa uuid (m ∷ ms) doc =
    let new = patch_cam_flags uuid (itoa m.slot) (itoa m.flags) doc in
    if_both (Left uuid (m ∷ ms)) (same_text m.uuid uuid) _ _
      (λ e.
        if_both (Left uuid (m ∷ ms)) new.0 _ _
          (λ p h. ground (arith, e, patch_all-Left itoa uuid ms new.1 h))
          (λ p h. absurd (ground (arith, h))))
      (λ e h. ground (arith, e, patch_all-Left itoa uuid ms doc h))

-- How many rounds are left at most.
abbrev rounds : NcUpdate → ℕ
rounds u = elim (u.state) [
  | done ↦ 0
  | search ↦ 4 * modified_items u.menu + 1
  | load ↦ 4 * other_items u.uuid u.menu + 4
  | change ↦ 4 * other_items u.uuid u.menu + 3
  | save ↦ 4 * modified_items u.menu + 2
]

-- What a status says of the items: the configuration is up to date if none is modified.
abbrev pub Holds : Status → List CamMtd → Type 0
Holds up_to_date ms = modified_items ms ≡ 0
Holds s ms = Unit

-- What a round leaves.
abbrev Goes : ℕ → NcUpdate → Type 0
Goes n u = (rounds u ≤ n) × Holds u.statestr u.menu

case_search-Goes : (u : NcUpdate) → Goes (4 * modified_items u.menu) (case_search u)
unfolding case_search
case_search-Goes u =
    option_both (Goes (4 * modified_items u.menu)) (first_modified u.menu) _ _
      (λ e. (ground arith, subst (λ o. Found o u.menu) e (first_modified-Found u.menu)))
      (λ m e. (ground (arith, subst (λ o. Found o u.menu) e (first_modified-Found u.menu)), tt))

case_change-Goes :
    (itoa : ℕ → List ℕ) (a : Answers) (u : NcUpdate)
    → Goes (4 * other_items u.uuid u.menu + 2) (case_change itoa a u)
unfolding case_change
case_change-Goes itoa a u =
    let P : NcUpdate → Type 0 = Goes (4 * other_items u.uuid u.menu + 2) in
    option_both P a.doc _ _ (λ e. (ground arith, tt))
      (λ doc e.
        if_both P (not (patch_all_cam_flags itoa u.uuid u.menu doc).0) _ _ (λ n. (ground arith, tt))
          (λ n.
            if_both P a.write_failed _ _ (λ w. (ground arith, tt))
              (λ w.
                (ground (arith, patch_all-Left itoa u.uuid u.menu doc (ground (arith, n))), tt))))

update_round-Goes :
    (itoa : ℕ → List ℕ) (a : Answers) (s : UpdateState) (t : Status) (uuid : List ℕ)
    (menu : List CamMtd)
    → Holds t menu
    → let u : NcUpdate = record { state = s; statestr = t; uuid = uuid; menu = menu } in
      Goes (rounds u - 1) (update_round itoa a u)
unfolding update_round
update_round-Goes itoa a done t uuid menu h = (ground arith, h)
update_round-Goes itoa a search t uuid menu h =
    let g = case_search-Goes (record { state = search; statestr = t; uuid = uuid; menu = menu }) in
    (omega (arith, g.0), g.1)
update_round-Goes itoa a load t uuid menu h =
    if_both (Goes (4 * other_items uuid menu + 4 - 1)) a.get_failed _ _ (λ e. (ground arith, tt))
      (λ e. (ground arith, tt))
update_round-Goes itoa a change t uuid menu h =
    let g =
      case_change-Goes itoa a (record { state = change; statestr = t; uuid = uuid; menu = menu }) in
    (omega (arith, g.0), g.1)
update_round-Goes itoa a save t uuid menu h =
    if_both (Goes (4 * modified_items menu + 2 - 1)) a.save_failed _ _ (λ e. (ground arith, tt))
      (λ e. (ground arith, tt))

update_action-Goes :
    (itoa : ℕ → List ℕ) (answers : ℕ → Answers) (fuel : ℕ) (u : NcUpdate)
    → Holds u.statestr u.menu
    → Goes (rounds u - fuel) (update_action itoa answers fuel u)
unfolding update_action
update_action-Goes itoa answers zero u h = (ground arith, h)
update_action-Goes itoa answers (suc fuel) u h =
    let g = update_round-Goes itoa (answers fuel) u.state u.statestr u.uuid u.menu h in
    let r = update_action-Goes itoa answers fuel (update_round itoa (answers fuel) u) g.1 in
    (omega (arith, g.0, r.0), r.1)

rounds-done : (u : NcUpdate) → rounds u ≤ 0 → u.state ≡ done
rounds-done u h =
    elim (u.state) as (λ s. rounds (record u { state = s }) ≤ 0 → s ≡ done) [
      | done ↦ λ l. refl
      | search ↦ λ l. absurd (omega (arith, l))
      | load ↦ λ l. absurd (omega (arith, l))
      | change ↦ λ l. absurd (omega (arith, l))
      | save ↦ λ l. absurd (omega (arith, l))
    ]
      h

-- The loop of the thread ends after at most 4 * n + 1 rounds, where n items are modified when it
-- starts, whatever the commands and libxml answer; and no item is modified where it then says that the
-- configuration is up to date.
pub update_action-ends :
    (itoa : ℕ → List ℕ) (answers : ℕ → Answers) (fuel : ℕ) (uuid : List ℕ) (menu : List CamMtd)
    → 4 * modified_items menu + 1 ≤ fuel
    → let u = update_action itoa answers fuel (new_update uuid menu) in
      (u.state ≡ done) × Holds u.statestr u.menu
update_action-ends itoa answers fuel uuid menu h =
    let g = update_action-Goes itoa answers fuel (new_update uuid menu) tt in
    (
      rounds-done (update_action itoa answers fuel (new_update uuid menu)) (omega (arith, g.0, h)),
      g.1,
    )
