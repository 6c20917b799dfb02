-- ===== src/CamMenu.antt =====
-- The CAM menu of cam_menu.c: the list of CAMs, and the saving of settings by cCamMtd and cNCUpdate,
-- for which the items of the menu are those of cCamMtd.
pub mod Patch
pub mod Update
pub mod Find
pub mod Lines
pub mod Menu
pub mod Keys
mod Tests
use vdr_plugin_mcli.Prelude.{ℕ, ◌==◌, Bool, not, List}

-- cCamMtd
pub record CamMtd : Type 0 where
  pub uuid : List ℕ
  pub slot : ℕ
  pub flags : ℕ
  pub oflags : ℕ

-- MtdModified and MtdSaved
abbrev pub mtd_modified : CamMtd → Bool
mtd_modified m = not (m.flags == m.oflags)

abbrev pub mtd_saved : CamMtd → CamMtd
mtd_saved m = record m { oflags = m.flags }
