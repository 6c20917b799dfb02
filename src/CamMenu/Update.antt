-- ===== src/CamMenu/Update.antt =====
-- The thread cNCUpdate of cam_menu.c, which saves the settings of the menu into the NetCeivers, one
-- after the other.
pub mod Ends
use vdr_plugin_mcli.Prelude.{
  ℕ, zero, suc, ◌+◌, ◌*◌, Bool, true, false, not, Option, none, some, List, [], ◌∷◌, if◌then◌else◌,
  same_text,
}
use vdr_plugin_mcli.CamMenu.{CamMtd, mtd_modified}
use vdr_plugin_mcli.CamMenu.Patch.{Component, patch_all_cam_flags}

-- m_state from 0 to 4.
pub data UpdateState : Type 0 where
  done : UpdateState
  search : UpdateState
  load : UpdateState
  change : UpdateState
  save : UpdateState

-- m_statestr, with the uuid in its text
pub data Status : Type 0 where
  no_status : Status
  updating : Status
  up_to_date : Status
  getting : List ℕ → Status
  failed_get : List ℕ → Status
  changing : List ℕ → Status
  failed_parse : List ℕ → Status
  failed_set : List ℕ → Status
  failed_save : List ℕ → Status
  saving : List ℕ → Status

-- cNCUpdate with the items of its menu, and the uuid of Action.
pub record NcUpdate : Type 0 where
  pub state : UpdateState
  pub statestr : Status
  pub uuid : List ℕ
  pub menu : List CamMtd

-- What the commands and libxml answer: whether SystemExec failed, and the file as it is read.
pub record Answers : Type 0 where
  pub get_failed : Bool
  pub doc : Option (List Component)
  pub write_failed : Bool
  pub save_failed : Bool

-- The constructor.
abbrev pub new_update : (uuid : List ℕ) → List CamMtd → NcUpdate
new_update uuid menu = record { state = search; statestr = no_status; uuid = uuid; menu = menu }

-- The item that the search stops at.
unfoldable pub first_modified : List CamMtd → Option CamMtd
first_modified [] = none
first_modified (m ∷ ms) = if mtd_modified m then some m else first_modified ms

-- case 1
unfoldable pub case_search : NcUpdate → NcUpdate
unfolding first_modified
case_search u = elim (first_modified u.menu) [
  | none ↦ record u { state = done; statestr = up_to_date }
  | some m ↦ record u { state = load; statestr = updating; uuid = m.uuid }
]

-- case 3
unfoldable pub case_change : (itoa : ℕ → List ℕ) → Answers → NcUpdate → NcUpdate
unfolding patch_all_cam_flags
case_change itoa a u = elim (a.doc) [
  | none ↦ record u { state = done; statestr = failed_parse u.uuid }
  | some doc ↦
      let out = patch_all_cam_flags itoa u.uuid u.menu doc in
      let u' = record u { menu = out.1.1 } in
      if not out.0
      then record u' { state = done; statestr = failed_set u.uuid }
      else (if a.write_failed
          then record u' { state = done; statestr = failed_save u.uuid }
          else record u' { state = save; statestr = changing u.uuid })
]

-- A round of the loop of Action.
unfoldable pub update_round : (itoa : ℕ → List ℕ) → Answers → NcUpdate → NcUpdate
unfolding case_search case_change
update_round itoa a u = elim (u.state) [
  | done ↦ u
  | search ↦ case_search u
  | load ↦
      if a.get_failed
      then record u { state = done; statestr = failed_get u.uuid }
      else record u { state = change; statestr = getting u.uuid }
  | change ↦ case_change itoa a u
  | save ↦
      if a.save_failed
      then record u { state = done; statestr = failed_save u.uuid }
      else record u { state = search; statestr = saving u.uuid }
]

-- Action on fuel, while the thread is running: `answers` are those in each round.
unfoldable pub update_action :
    (itoa : ℕ → List ℕ) (answers : ℕ → Answers) (fuel : ℕ) → NcUpdate → NcUpdate
unfolding update_round
update_action itoa answers zero u = u
update_action itoa answers (suc fuel) u =
    update_action itoa answers fuel (update_round itoa (answers fuel) u)
