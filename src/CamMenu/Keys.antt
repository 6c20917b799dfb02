-- ===== src/CamMenu/Keys.antt =====
-- ProcessKey, the constructors and the destructor of cCamMenu in cam_menu.c.
pub mod Session
pub mod Answers
pub mod Sent
pub mod Leftover
pub mod Loop
use vdr_plugin_mcli.Prelude.{
  ◌+◌, ◌*◌, ◌==◌, length, take, get_elem?, same_text, ℕ, zero, suc, ◌<◌, ◌≡◌, ◌&&◌, Bool, true,
  false, Option, none, some, List, [], ◌∷◌, ◌++◌, if◌then◌else◌,
}
use vdr_plugin_mcli.Prelude.Int.{ℤ, pos, negsuc}
use vdr_plugin_mcli.CamMenu.Find.{
  MenuItem, text_item, info_item, mtd_item, MenuNci, can_cam_reset, cam_find, item_text,
  enter_digit,
}
use vdr_plugin_mcli.CamMenu.Menu.{
  InputRequest, input_none, MmiCall, opened, cam_reset, Menu, Key, red_key, yellow_key, ok_key,
  back_key, digit_key, other_key, OsState, os_back, os_continue, os_end, os_of_menu, KeyPress, Vdr,
  is_positive, item_at, text_items, receive, send, close_session, leave, is_requested, is_blind,
  open_cam_menu,
}

-- kOk; `none` where there is no current item, whose text the code would read.
unfoldable pub press_ok : Vdr → KeyPress → Menu → Option Menu
unfolding receive open_cam_menu item_text
press_ok v k m' =
    let m = record m' { pin_counter = 0 } in
    let answer = receive v (k.polls 0) in
    let item = item_at m.current_selected m.items in
    if m.in_cam_menu && is_requested m.input_requested
    then some (answer (send m.pin (record m { input_requested = input_none })))
    else (if m.in_mmi_broadcast_menu
        then elim item [ none ↦ none | some it ↦ some (answer (send (item_text v.labels it) m)) ]
        else (if m.in_cam_menu
            then elim item [
              | none ↦ none
              | some it ↦
                  let text = item_text v.labels it in
                  some (answer (if same_text text v.labels.error then m else send text m))
            ]
            else some (open_cam_menu v k m)))

-- txt[0] == 48 + Key - k0 && txt[1] == '.'
abbrev pub is_answer : (digit : ℕ) → List ℕ → Bool
is_answer digit [] = false
is_answer digit (x ∷ []) = false
is_answer digit (x ∷ y ∷ text) = x == 48 + digit && y == b'.'

-- The loop over the items from index i on, in which `n` texts were received; `none` without fuel.
unfoldable pub digit_loop : Vdr → KeyPress → (digit : ℕ) → (fuel i n : ℕ) → Menu → Option Menu
unfolding receive item_text
digit_loop v k digit zero i n m = none
digit_loop v k digit (suc fuel) i n m = elim (get_elem? m.items i) [
  | none ↦ some m
  | some it ↦
      let text = item_text v.labels it in
      let answers = is_answer digit text in
      digit_loop v k digit fuel (suc i) (if answers then suc n else n)
        (if answers then receive v (k.polls n) (send text m) else m)
]

-- k0 to k9
unfoldable pub press_digit : Vdr → KeyPress → (digit : ℕ) → Menu → Option Menu
unfolding digit_loop enter_digit
press_digit v k digit m =
    if is_requested m.input_requested
    then elim (enter_digit (is_blind m.input_requested) digit (take m.pin_counter m.pin)) [
      | none ↦ none
      | some (pin, shown) ↦ some (record m { pin = pin; pin_counter = m.pin_counter + 1 })
    ]
    else digit_loop v k digit (2 * (length m.items + v.text_length) + 1) 0 0
        (record m { pin_counter = 0 })

-- kYellow: CamReset of a cCamInfo.
abbrev pub press_yellow : Option MenuItem → Menu → Menu
press_yellow (some (info_item uuid slot info)) m =
    if can_cam_reset (some slot) info then record m { calls = cam_reset uuid slot ∷ m.calls } else m
press_yellow item m = m

-- kBack
unfoldable pub press_back : Vdr → KeyPress → Menu → OsState × Menu
unfolding leave
press_back v k m' =
    let m = record m' { pin_counter = 0 } in
    if m.in_cam_menu
    then (os_continue, leave v k (record m { in_cam_menu = false }))
    else (os_back, m)

-- What a call of CamMenuReceive gets without a key that is known.
abbrev pub heard : Vdr → List (Option (List ℕ)) → Menu → Menu
heard v [] m = m
heard v (none ∷ polls) m = m
heard v (some text ∷ polls) m = receive v [] (record m { already_received = true; buf = text })

-- Any other key, or none: one call of CamMenuReceive.
unfoldable pub press_other : Vdr → KeyPress → Menu → Menu
unfolding receive
press_other v k m = if is_positive m.mmi_session then heard v (k.polls 0) m else m

-- The result of keys behind which ProcessKey returns what cOsdMenu::ProcessKey did.
abbrev pub of_menu : Option Menu → Option (OsState × Menu)
of_menu none = none
of_menu (some m) = some (os_of_menu, m)

-- The switch over the keys.
unfoldable pub press : Vdr → KeyPress → Key → Menu → Option (OsState × Menu)
unfolding press_ok press_back press_digit press_other can_cam_reset
press v k red_key m = some (os_continue, record m { nc_update = true })
press v k yellow_key m = some (os_of_menu, press_yellow (item_at m.current_selected m.items) m)
press v k ok_key m = of_menu (press_ok v k m)
press v k back_key m = some (press_back v k m)
press v k (digit_key digit) m = of_menu (press_digit v k digit m)
press v k other_key m = some (os_of_menu, press_other v k m)

-- ProcessKey behind the test of NCUpdate.
unfoldable pub process_free : Vdr → KeyPress → Menu → Option (OsState × Menu)
unfolding press leave
process_free v k m' =
    let m = record m' { current_selected = k.current } in
    let ended = record m { end = false; in_cam_menu = false } in
    if m.end
    then some (if m.in_mmi_broadcast_menu then (os_end, ended) else (os_continue, leave v k ended))
    else press v k k.key m

-- ProcessKey; `none` where the code reads through NULL or writes behind an array.
unfoldable pub process_key : Vdr → KeyPress → Menu → Option (OsState × Menu)
unfolding process_free
process_key v k m =
    if m.nc_update
    then some (if k.nc_done then (os_back, record m { nc_update = false }) else (os_continue, m))
    else process_free v k m

-- The members behind both constructors, for an array `pin` and a buffer that nothing sets.
abbrev pub fresh : (pin buf : List ℕ) → Menu
fresh pin buf = record {
  items = [];
  mmi_session = negsuc 0;
  in_cam_menu = false;
  in_mmi_broadcast_menu = false;
  end = false;
  current_selected = none;
  input_requested = input_none;
  pin = pin;
  pin_counter = 0;
  already_received = false;
  buf = buf;
  nc_update = false;
  calls = [];
}

-- cCamMenu (cmd)
unfoldable pub new_menu : Vdr → List MenuNci → (pin buf : List ℕ) → Menu
unfolding cam_find
new_menu v ncis pin buf = record (fresh pin buf) { items = (cam_find v.labels ncis).0 }

-- cCamMenu (cmd, mmi_info) with CamMenuOpen, for the text of mmi_info and the session that is opened.
pub new_broadcast_menu : Vdr → (text : List ℕ) → (session : ℤ) → (pin buf : List ℕ) → Menu
new_broadcast_menu v text session pin buf =
    let m = record (fresh pin buf) {
      items = text_items v text;
      mmi_session = session;
      in_cam_menu = true;
      in_mmi_broadcast_menu = true;
    } in
    if is_positive session then record m { calls = opened session ∷ [] } else m

-- ~cCamMenu
unfoldable pub delete_menu : Menu → Menu
delete_menu m = close_session m
