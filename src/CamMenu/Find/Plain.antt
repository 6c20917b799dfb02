-- ===== src/CamMenu/Find/Plain.antt =====
-- The list of CAMs of CamFind (cam_menu.c): no item begins with a digit, as the answers of a CAM do.
use mathlib.Core.List.{reverse}
use vdr_plugin_mcli.Prelude.{
  ℕ, ◌≡◌, refl, ◌==◌, ◌&&◌, Bool, true, false, List, [], ◌∷◌, leb, ltb, not, All, All-append,
  if_both,
}
use vdr_plugin_mcli.CamMenu.{CamMtd}
use vdr_plugin_mcli.CamMenu.Find.{
  mtd_possible, impossible_items, count_cams, Labels, MenuItem, text_item, mtd_item, MenuNci,
  MenuCam, item_text, cam_items, all_cam_items, nci_items, cam_find,
}

-- Whether a text begins with a digit.
abbrev pub starts_digit : List ℕ → Bool
starts_digit [] = false
starts_digit (x ∷ text) = leb 48 x && leb x 57

abbrev pub Plain : Labels → MenuItem → Type 0
Plain lb it = starts_digit (item_text lb it) ≡ false

-- The line "Error" does not begin with a digit.
pub record IsPlain (lb : Labels) : Type 0 where
  pub error_plain : starts_digit lb.error ≡ false

cam_items-Plain :
    (lb : Labels) (uuid : List ℕ) (b : Bool) (m : MenuCam) → All (Plain lb) (cam_items uuid b m)
unfolding cam_items item_text
cam_items-Plain lb uuid b m =
    let mtd : CamMtd = record { uuid = uuid; slot = m.slot; flags = m.flags; oflags = m.flags } in
    if_both (All (Plain lb)) (m.status == 2) _ _
      (λ e. (
        refl,
        if_both (All (Plain lb)) (not b && mtd_possible m.menu_string)
            (mtd_item mtd ∷ text_item [] ∷ []) (text_item [] ∷ []) (λ p. (refl, (refl, tt)))
            (λ p. (refl, tt)),
      ))
      (λ e.
        if_both (All (Plain lb)) (m.status == 0) _ _ (λ p. (refl, (refl, tt)))
          (λ p. (refl, (refl, tt))))

all_cam_items-Plain :
    (lb : Labels) (uuid : List ℕ) (b : Bool) (ms : List MenuCam)
    → All (Plain lb) (all_cam_items uuid b ms)
unfolding all_cam_items
all_cam_items-Plain lb uuid b [] = tt
all_cam_items-Plain lb uuid b (m ∷ ms) =
    All-append (Plain lb) (cam_items uuid b m) (all_cam_items uuid b ms)
      (cam_items-Plain lb uuid b m) (all_cam_items-Plain lb uuid b ms)

impossible-Plain : (lb : Labels) (b : Bool) → All (Plain lb) (impossible_items lb b)
unfolding item_text
impossible-Plain lb true = (refl, (refl, (refl, tt)))
impossible-Plain lb false = tt

nci_items-Plain : (lb : Labels) (n : MenuNci) → All (Plain lb) (nci_items lb n)
unfolding nci_items item_text
nci_items-Plain lb n =
    let b : Bool = ltb 0 (count_cams true n.cams) && ltb 0 (count_cams false n.cams) in
    (
      refl,
      (
        refl,
        (
          refl,
          All-append (Plain lb) (all_cam_items n.uuid b (reverse n.cams)) (impossible_items lb b)
              (all_cam_items-Plain lb n.uuid b (reverse n.cams)) (impossible-Plain lb b),
        ),
      ),
    )

pub cam_find-Plain : (lb : Labels) (ns : List MenuNci) → All (Plain lb) (cam_find lb ns).0
unfolding cam_find
cam_find-Plain lb [] = tt
cam_find-Plain lb (n ∷ ns) =
    All-append (Plain lb) (nci_items lb n) (cam_find lb ns).0 (nci_items-Plain lb n)
      (cam_find-Plain lb ns)
