-- ===== src/CamMenu/Patch.antt =====
-- PatchAllCamFlags and PatchCamFlags of cNCUpdate (cam_menu.c), which write the flags of the CAMs into
-- the configuration of a NetCeiver. The tree of libxml is the list of its components.
use vdr_plugin_mcli.Prelude.{
  ℕ, Bool, true, false, ◌&&◌, ◌||◌, List, [], ◌∷◌, if◌then◌else◌, same_text,
}
use vdr_plugin_mcli.CamMenu.{CamMtd, mtd_saved}

-- The elements in a Description that the code knows, with their text; a UUID or a Slot without text is
-- passed over, as another element is.
pub data Element : Type 0 where
  uuid_element : List ℕ → Element
  slot_element : List ℕ → Element
  flags_element : List ℕ → Element
  other_element : Element

-- A component, by the attribute `about` of its Description.
pub data Component : Type 0 where
  platform : List Element → Component
  cam : List Element → Component
  other_component : Component

-- What the last UUID of a Platform says, or the answer so far.
pub match_uuid : (uuid : List ℕ) → List Element → Bool → Bool
match_uuid uuid [] found = found
match_uuid uuid (uuid_element value ∷ es) found = match_uuid uuid es (same_text value uuid)
match_uuid uuid (e ∷ es) found = match_uuid uuid es found

-- The first Flags replaced, and whether there is one.
pub replace_flags : (flags : List ℕ) → List Element → Bool × List Element
replace_flags flags [] = (false, [])
replace_flags flags (flags_element old ∷ es) = (true, flags_element flags ∷ es)
replace_flags flags (e ∷ es) = let rest = replace_flags flags es in (rest.0, e ∷ rest.1)

-- The loop over the elements of a CAM, `item` being its elements as changed so far.
pub patch_cam :
    (slot flags : List ℕ)
    → List Element
    → (item : List Element) (flags_set : Bool) → Bool × List Element
unfolding replace_flags
patch_cam slot flags [] item flags_set = (flags_set, item)
patch_cam slot flags (slot_element value ∷ es) item flags_set =
    let new = replace_flags flags item in
    if same_text value slot
    then patch_cam slot flags es new.1 (new.0 || flags_set)
    else patch_cam slot flags es item flags_set
patch_cam slot flags (e ∷ es) item flags_set = patch_cam slot flags es item flags_set

-- The loop over the components: uuid_match, flags_set and the tree.
pub patch_components :
    (uuid slot flags : List ℕ)
    → List Component
    → (uuid_match flags_set : Bool) → Bool × (Bool × List Component)
unfolding match_uuid patch_cam
patch_components uuid slot flags [] u f = (u, (f, []))
patch_components uuid slot flags (platform es ∷ cs) u f =
    let rest = patch_components uuid slot flags cs (match_uuid uuid es u) f in
    (rest.0, (rest.1.0, platform es ∷ rest.1.1))
patch_components uuid slot flags (cam es ∷ cs) u f =
    let new = patch_cam slot flags es es f in
    let rest = patch_components uuid slot flags cs u new.0 in
    (rest.0, (rest.1.0, cam new.1 ∷ rest.1.1))
patch_components uuid slot flags (other_component ∷ cs) u f =
    let rest = patch_components uuid slot flags cs u f in
    (rest.0, (rest.1.0, other_component ∷ rest.1.1))

-- PatchCamFlags: the answer and the tree.
unfoldable pub patch_cam_flags : (uuid slot flags : List ℕ) → List Component → Bool × List Component
unfolding patch_components
patch_cam_flags uuid slot flags doc =
    let out = patch_components uuid slot flags doc false false in (out.0 && out.1.0, out.1.1)

-- PatchAllCamFlags: the answer, the tree and the items; itoa is that of VDR.
unfoldable pub patch_all_cam_flags :
    (itoa : ℕ → List ℕ) (uuid : List ℕ)
    → List CamMtd
    → List Component
    → Bool × (List Component × List CamMtd)
unfolding patch_cam_flags
patch_all_cam_flags itoa uuid [] doc = (true, (doc, []))
patch_all_cam_flags itoa uuid (m ∷ ms) doc =
    let new = patch_cam_flags uuid (itoa m.slot) (itoa m.flags) doc in
    let rest = patch_all_cam_flags itoa uuid ms new.1 in
    let skipped = patch_all_cam_flags itoa uuid ms doc in
    if same_text m.uuid uuid
    then (if new.0 then (rest.0, (rest.1.0, mtd_saved m ∷ rest.1.1)) else (false, (new.1, m ∷ ms)))
    else (skipped.0, (skipped.1.0, m ∷ skipped.1.1))
