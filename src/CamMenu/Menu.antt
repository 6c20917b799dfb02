-- ===== src/CamMenu/Menu.antt =====
-- The menu cCamMenu of cam_menu.c: the texts of a CAM and the keys. What libmcli answers -- the texts
-- that CamMenuReceive gets, the session that is opened -- comes with each key.
pub mod Shown
use vdr_plugin_mcli.Prelude.{
  ℕ, zero, suc, Bool, true, false, Option, none, some, List, [], ◌∷◌, ◌++◌, map, take, drop,
  get_elem?, replicate, if◌then◌else◌, same_text,
}
use vdr_plugin_mcli.Prelude.Int.{ℤ, pos, negsuc}
use vdr_plugin_mcli.CamMenu.Find.{Labels, MenuItem, text_item, info_item, MenuNci, cam_find}
use vdr_plugin_mcli.CamMenu.Lines.{lines}

-- eInputRequest
pub data InputRequest : Type 0 where
  input_none : InputRequest
  input_blind : InputRequest
  input_not_blind : InputRequest

-- inputRequested as a condition, and whether it is eInputBlind.
abbrev pub is_requested : InputRequest → Bool
is_requested input_none = false
is_requested input_blind = true
is_requested input_not_blind = true

abbrev pub is_blind : InputRequest → Bool
is_blind input_none = false
is_blind input_blind = true
is_blind input_not_blind = false

-- The calls of libmcli that a CAM sees: a session that is opened, an answer, the end of a session, and
-- the reset of a CAM.
pub data MmiCall : Type 0 where
  opened : (session : ℤ) → MmiCall
  sent : (session : ℤ) → List ℕ → MmiCall
  closed : (session : ℤ) → MmiCall
  cam_reset : (uuid : List ℕ) → (slot : ℕ) → MmiCall

-- cCamMenu. `pin` is the text in the array of this name, `pin_counter` the number of digits that were
-- entered; `nc_update` says that NCUpdate is not NULL; `calls` are those so far, the last one first.
pub record Menu : Type 0 where
  pub items : List MenuItem
  pub mmi_session : ℤ
  pub in_cam_menu : Bool
  pub in_mmi_broadcast_menu : Bool
  pub end : Bool
  pub current_selected : Option ℕ
  pub input_requested : InputRequest
  pub pin : List ℕ
  pub pin_counter : ℕ
  pub already_received : Bool
  pub buf : List ℕ
  pub nc_update : Bool
  pub calls : List MmiCall

-- The keys that ProcessKey knows; the others are `other_key`.
pub data Key : Type 0 where
  red_key : Key
  yellow_key : Key
  ok_key : Key
  back_key : Key
  digit_key : ℕ → Key
  other_key : Key

-- eOSState: a constant, or what cOsdMenu::ProcessKey returned.
pub data OsState : Type 0 where
  os_back : OsState
  os_continue : OsState
  os_end : OsState
  os_of_menu : OsState

-- A key with what is answered meanwhile: the item that is current behind cOsdMenu::ProcessKey, whether
-- NCUpdate is done, the session that mmi_open_menu_session returns, what each call of CamMenuReceive in
-- the n-th run of Receive gets, and the list of NetCeivers.
pub record KeyPress : Type 0 where
  pub key : Key
  pub current : Option ℕ
  pub nc_done : Bool
  pub session : ℤ
  pub polls : ℕ → List (Option (List ℕ))
  pub ncis : List MenuNci

-- session > 0
abbrev pub is_positive : ℤ → Bool
is_positive (pos zero) = false
is_positive (pos (suc n)) = true
is_positive (negsuc n) = false

-- What VDR adds: the texts that it translates, the conversion of cCharSetConv, and the size of the
-- array of lines, MMI_TEXT_LENGTH * 2.
pub record Vdr : Type 0 where
  pub labels : Labels
  pub conv : List ℕ → List ℕ
  pub text_length : ℕ

-- Get (i)
abbrev pub item_at : Option ℕ → List MenuItem → Option MenuItem
item_at none items = none
item_at (some i) items = get_elem? items i

-- The first text of the calls of CamMenuReceive, if one comes before the time is over.
abbrev pub first_text : List (Option (List ℕ)) → Option (List ℕ)
first_text [] = none
first_text (none ∷ polls) = first_text polls
first_text (some text ∷ polls) = some text

-- The request for input that a text makes: "blind = 0" or "blind = 1".
abbrev pub request : List ℕ → InputRequest → InputRequest
request text old =
    let blind = λ (d : ℕ).
      same_text (take 9 text) (b'b' ∷ b'l' ∷ b'i' ∷ b'n' ∷ b'd' ∷ b' ' ∷ b'=' ∷ b' ' ∷ d ∷ []) in
    if blind b'0' then input_not_blind else (if blind b'1' then input_blind else old)

-- The items of a text.
abbrev pub text_items : Vdr → List ℕ → List MenuItem
text_items v text = map text_item (lines (v.conv text))

-- What Receive does with a text: "end" ends the menu.
unfoldable pub show_text : Vdr → List ℕ → Menu → Menu
unfolding lines same_text
show_text v text m =
    let asks = request text m.input_requested in
    let m' = record m {
      items = [];
      already_received = false;
      buf = text;
      input_requested = asks;
    } in
    if same_text text (b'e' ∷ b'n' ∷ b'd' ∷ [])
    then record m' { end = true }
    else record m' { items = text_items v (if is_requested asks then drop 28 text else text) }

-- The line "Error" behind a timeout.
abbrev pub show_error : Vdr → Menu → Menu
show_error v m = record m { items = m.items ++ text_item v.labels.error ∷ [] }

-- Receive
unfoldable pub receive : Vdr → List (Option (List ℕ)) → Menu → Menu
unfolding show_text
receive v polls m =
    if is_positive m.mmi_session
    then (if m.already_received
        then show_text v m.buf m
        else elim (first_text polls) [ none ↦ show_error v m | some text ↦ show_text v text m ])
    else show_error v m

-- CamMenuSend and CamMenuClose
abbrev pub send : List ℕ → Menu → Menu
send text m = record m { calls = sent m.mmi_session text ∷ m.calls }

abbrev pub close_session : Menu → Menu
close_session m = record m { calls = closed m.mmi_session ∷ m.calls }

-- What CamMenuOpen of a cCamInfo sends: "00000000000000\n".
abbrev pub zeros : List ℕ
zeros = replicate 14 b'0' ++ b'\n' ∷ []

-- CamMenuOpen of a cCamInfo, or 0 for another item.
unfoldable pub open_item : (session : ℤ) → Option MenuItem → Menu → Menu
open_item session (some (info_item uuid slot (some (x ∷ info)))) m =
    if is_positive session
    then send zeros (record m { mmi_session = session; calls = opened session ∷ m.calls })
    else record m { mmi_session = negsuc 0 }
open_item session item m = record m { mmi_session = pos 0 }

-- OpenCamMenu behind CamMenuOpen: the text of the CAM, or "Error" where none comes or the session is -1.
unfoldable pub show_opened : Vdr → KeyPress → Menu → Menu
unfolding lines
show_opened v k m =
    let failed = record m { items = text_item v.labels.error ∷ [] } in
    if is_positive m.mmi_session
    then elim (first_text (k.polls 0)) [
      | none ↦ record failed { in_cam_menu = true }
      | some text ↦ record m { in_cam_menu = true; items = text_items v text; buf = text }
    ]
    else elim (m.mmi_session) [ pos n ↦ m | negsuc n ↦ failed ]

-- OpenCamMenu
unfoldable pub open_cam_menu : Vdr → KeyPress → Menu → Menu
unfolding open_item show_opened
open_cam_menu v k m = show_opened v k (open_item k.session (item_at m.current_selected m.items) m)

-- CamMenuClose and CamFind: back in the list of CAMs.
unfoldable pub leave : Vdr → KeyPress → Menu → Menu
unfolding cam_find
leave v k m = record (close_session m) { items = (cam_find v.labels k.ncis).0 }
