-- ===== src/CamMenu/Find.antt =====
-- The list of CAMs in the menu, and the entry of a PIN: CamFind, MtdPossible, CanCamReset and the keys
-- 0 to 9 of cam_menu.c.
pub mod Plain
use vdr_plugin_mcli.Prelude.{
  ℕ, ◌+◌, ◌==◌, Bool, true, false, not, ◌&&◌, ◌||◌, Option, none, some, List, [], ◌∷◌, ◌++◌, length,
  take, replicate, ltb, if◌then◌else◌, same_text,
}
use mathlib.Core.List.{reverse}
use vdr_plugin_mcli.CamMenu.{CamMtd}

-- What CamFind reads of a CAM and of a NetCeiver.
pub record MenuCam : Type 0 where
  pub slot : ℕ
  pub status : ℕ
  pub menu_string : List ℕ
  pub flags : ℕ

pub record MenuNci : Type 0 where
  pub uuid : List ℕ
  pub cams : List MenuCam

-- The texts that VDR translates, and what a cMenuEditIntItem shows behind its name.
pub record Labels : Type 0 where
  pub error : List ℕ
  pub lower_slot : List ℕ
  pub upper_slot : List ℕ
  pub no_module : List ℕ
  pub mtd_is : List ℕ
  pub mtd_impossible : List ℕ
  pub mtd_label : List ℕ
  pub mtd_value : CamMtd → List ℕ

-- The items of the menu: a cOsdItem with its text, a cCamInfo, whose text is `none` for NULL, and a
-- cCamMtd.
pub data MenuItem : Type 0 where
  text_item : List ℕ → MenuItem
  info_item : (uuid : List ℕ) → (slot : ℕ) → Option (List ℕ) → MenuItem
  mtd_item : CamMtd → MenuItem

-- The text of a line that is moved to the right.
abbrev pub indented : List ℕ → List ℕ
indented text = b' ' ∷ b' ' ∷ b' ' ∷ text

-- What a cCamInfo shows of its text.
abbrev pub info_text : Labels → Option (List ℕ) → List ℕ
info_text lb none = lb.no_module
info_text lb (some []) = lb.error
info_text lb (some (x ∷ info)) = x ∷ info

-- Text
unfoldable pub item_text : Labels → MenuItem → List ℕ
item_text lb (text_item text) = text
item_text lb (info_item uuid slot info) =
    indented
      ((if slot == 0 then lb.lower_slot else lb.upper_slot) ++ (b':' ∷ b'\t' ∷ info_text lb info))
item_text lb (mtd_item m) = indented (indented (lb.mtd_label ++ lb.mtd_value m))

-- MtdPossible: the text begins with Alpha, easy.TV or Power.
unfoldable pub mtd_possible : List ℕ → Bool
mtd_possible info =
    same_text (take 5 info) (65 ∷ 108 ∷ 112 ∷ 104 ∷ 97 ∷ [])
    || same_text (take 7 info) (101 ∷ 97 ∷ 115 ∷ 121 ∷ 46 ∷ 84 ∷ 86 ∷ [])
    || same_text (take 5 info) (80 ∷ 111 ∷ 119 ∷ 101 ∷ 114 ∷ [])

-- CanCamReset; the slot is `none` for -1.
unfoldable pub can_cam_reset : Option ℕ → (info : Option (List ℕ)) → Bool
can_cam_reset none info = false
can_cam_reset (some slot) none = false
can_cam_reset (some slot) (some text) = true

-- Whether a CAM is ready and has a text, and MtdPossible says so of it, or does not.
abbrev pub is_ready_cam : Bool → MenuCam → Bool
is_ready_cam possible m =
    m.status == 2
    && not (length m.menu_string == 0)
    && (if possible then mtd_possible m.menu_string else not (mtd_possible m.menu_string))

-- nrAlphaCrypts and nrOtherCams
unfoldable pub count_cams : Bool → List MenuCam → ℕ
unfolding mtd_possible
count_cams possible [] = 0
count_cams possible (m ∷ ms) = (if is_ready_cam possible m then 1 else 0) + count_cams possible ms

-- The items of a CAM.
unfoldable pub cam_items : (uuid : List ℕ) → (impossible : Bool) → MenuCam → List MenuItem
unfolding mtd_possible
cam_items uuid impossible m =
    if m.status == 2
    then info_item uuid m.slot (some m.menu_string)
      ∷ (if not impossible && mtd_possible m.menu_string
          then mtd_item (record { uuid = uuid; slot = m.slot; flags = m.flags; oflags = m.flags })
            ∷ text_item []
            ∷ []
          else text_item [] ∷ [])
    else (if m.status == 0
        then info_item uuid m.slot none ∷ text_item [] ∷ []
        else info_item uuid m.slot (some m.menu_string) ∷ text_item [] ∷ [])

-- The items of all CAMs, in the order in which they are given.
unfoldable pub all_cam_items : (uuid : List ℕ) → (impossible : Bool) → List MenuCam → List MenuItem
unfolding cam_items
all_cam_items uuid impossible [] = []
all_cam_items uuid impossible (m ∷ ms) =
    cam_items uuid impossible m ++ all_cam_items uuid impossible ms

-- The lines that name a NetCeiver: "Netceiver", "    ID: " with the uuid, and an empty one.
abbrev pub nci_title : (uuid : List ℕ) → List MenuItem
nci_title uuid =
    text_item (b'N' ∷ b'e' ∷ b't' ∷ b'c' ∷ b'e' ∷ b'i' ∷ b'v' ∷ b'e' ∷ b'r' ∷ [])
    ∷ text_item (indented (b' ' ∷ b'I' ∷ b'D' ∷ b':' ∷ b' ' ∷ uuid))
    ∷ text_item []
    ∷ []

-- The lines that say that decryption of several transponders is impossible.
abbrev pub impossible_items : Labels → (impossible : Bool) → List MenuItem
impossible_items lb true =
    text_item (indented lb.mtd_is) ∷ text_item (indented lb.mtd_impossible) ∷ text_item [] ∷ []
impossible_items lb false = []

-- The items of a NetCeiver, the last CAM first.
unfoldable pub nci_items : Labels → MenuNci → List MenuItem
unfolding count_cams all_cam_items
nci_items lb n =
    let impossible = ltb 0 (count_cams true n.cams) && ltb 0 (count_cams false n.cams) in
    nci_title n.uuid
    ++ (all_cam_items n.uuid impossible (reverse n.cams) ++ impossible_items lb impossible)

-- CamFind: the items and the number of CAMs.
unfoldable pub cam_find : Labels → List MenuNci → List MenuItem × ℕ
unfolding nci_items
cam_find lb [] = ([], 0)
cam_find lb (n ∷ ns) =
    let rest = cam_find lb ns in (nci_items lb n ++ rest.0, length n.cams + rest.1)

-- A digit while input is requested: the PIN and the text that is shown, which has 16 bytes with the
-- end of the text; `none` where the digits are more, so that the code writes behind them.
unfoldable pub enter_digit :
    (blind : Bool) → (digit : ℕ) → (pin : List ℕ) → Option (List ℕ × List ℕ)
enter_digit blind digit pin =
    let pin' = pin ++ (48 + digit) ∷ [] in
    if ltb (length pin') 16
    then some (pin', if blind then replicate (length pin') 42 else pin')
    else none
