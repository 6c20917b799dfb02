-- ===== src/CamMenu/Tests.antt =====
-- Runs of the CAM menu, and of the thread that saves its settings (cam_menu.c), on small inputs.
use vdr_plugin_mcli.Prelude.Int.{pos}
use vdr_plugin_mcli.CamMenu.Find.Plain.{IsPlain}
use vdr_plugin_mcli.CamMenu.Lines.{lines}
use vdr_plugin_mcli.CamMenu.Menu.Shown.{receive-items}
use vdr_plugin_mcli.CamMenu.Menu.{
  opened, sent, closed, Menu, ok_key, back_key, os_of_menu, os_continue, KeyPress, Vdr, item_at,
  input_blind, is_requested, receive, open_cam_menu, leave, zeros,
}
use vdr_plugin_mcli.CamMenu.Keys.{
  press_ok, press_digit, press, process_free, process_key, fresh, new_menu, delete_menu,
}
use vdr_plugin_mcli.CamMenu.Keys.Session.{IsSound}
use vdr_plugin_mcli.CamMenu.Keys.Sent.{here, next, Keys-IsSound}
use vdr_plugin_mcli.CamMenu.Keys.Loop.{press_digit-IsDone}
use vdr_plugin_mcli.CamMenu.Keys.Leftover.{back, back_closes_twice, back_keeps_request}
use vdr_plugin_mcli.CamMenu.Find.{
  cam_find, MenuNci, Labels, nci_title, info_item, mtd_item, text_item, mtd_possible, count_cams,
  cam_items, all_cam_items, nci_items,
}
use vdr_plugin_mcli.Prelude.{
  true, inl, inr, take, length-take, ◌++◌, none, ℕ, ◌+◌, ◌≡◌, refl, false, some, List, [], ◌∷◌,
  arith, same_text,
}
use vdr_plugin_mcli.CamMenu.{CamMtd}
use vdr_plugin_mcli.CamMenu.Patch.{
  uuid_element, slot_element, flags_element, other_element, Component, platform, cam,
  patch_cam_flags, patch_all_cam_flags,
}
use vdr_plugin_mcli.CamMenu.Update.{
  done, up_to_date, Answers, new_update, first_modified, case_search, case_change, update_round,
  update_action,
}
use vdr_plugin_mcli.CamMenu.Update.Ends.{Holds, update_action-ends}

-- Two CAMs of the NetCeiver 97; the flags of one are changed from 1 to 2.
abbrev menu : List CamMtd
menu =
    record { uuid = 97 ∷ []; slot = 0; flags = 2; oflags = 1 }
    ∷ record { uuid = 97 ∷ []; slot = 1; flags = 1; oflags = 1 }
    ∷ []

-- Numbers as one character.
abbrev digit : ℕ → List ℕ
digit n = (48 + n) ∷ []

-- Its configuration.
abbrev doc : List Component
doc =
    platform (uuid_element (97 ∷ []) ∷ [])
    ∷ cam (slot_element (48 ∷ []) ∷ other_element ∷ flags_element (49 ∷ []) ∷ [])
    ∷ cam (slot_element (49 ∷ []) ∷ flags_element (49 ∷ []) ∷ [])
    ∷ []

abbrev answers : ℕ → Answers
answers n = record { get_failed = false; doc = some doc; write_failed = false; save_failed = false }

update_action-ends_example :
    let u = update_action digit answers 5 (new_update [] menu) in
    (u.state ≡ done) × Holds u.statestr u.menu
update_action-ends_example = update_action-ends digit answers 5 [] menu (omega arith)

-- The flags are written into the configuration.
patches :
    (patch_cam_flags (97 ∷ []) (48 ∷ []) (50 ∷ []) doc).1
    ≡ platform (uuid_element (97 ∷ []) ∷ [])
      ∷ cam (slot_element (48 ∷ []) ∷ other_element ∷ flags_element (50 ∷ []) ∷ [])
      ∷ cam (slot_element (49 ∷ []) ∷ flags_element (49 ∷ []) ∷ [])
      ∷ []
unfolding patch_cam_flags same_text
patches = refl

-- Four rounds save the flags, and a fifth finds nothing more.
saves : (update_action digit answers 5 (new_update [] menu)).statestr ≡ up_to_date
unfolding update_action update_round case_search case_change patch_all_cam_flags patch_cam_flags
    first_modified same_text
saves = refl

-- An easy.TV CAM in slot 0 of a NetCeiver, and a slot without a CAM.
abbrev netceiver : MenuNci
netceiver = record {
  uuid = 97 ∷ [];
  cams =
      record {
        slot = 0;
        status = 2;
        menu_string = 101 ∷ 97 ∷ 115 ∷ 121 ∷ 46 ∷ 84 ∷ 86 ∷ [];
        flags = 1;
      }
      ∷ record { slot = 1; status = 0; menu_string = []; flags = 0 }
      ∷ [];
}

abbrev labels : Labels
labels = record {
  error = b'E' ∷ [];
  lower_slot = b'l' ∷ [];
  upper_slot = b'u' ∷ [];
  no_module = b'-' ∷ [];
  mtd_is = b'M' ∷ [];
  mtd_impossible = b'i' ∷ [];
  mtd_label = b'M' ∷ [];
  mtd_value = λ m. b':' ∷ [];
}

-- The last slot comes first, and the CAM has its setting.
finds :
    nci_items labels netceiver
    ≡ nci_title (97 ∷ [])
      ++ (info_item (97 ∷ []) 1 none
          ∷ text_item []
          ∷ info_item (97 ∷ []) 0 (some (101 ∷ 97 ∷ 115 ∷ 121 ∷ 46 ∷ 84 ∷ 86 ∷ []))
          ∷ mtd_item (record { uuid = 97 ∷ []; slot = 0; flags = 1; oflags = 1 })
          ∷ text_item []
          ∷ [])
unfolding nci_items count_cams all_cam_items cam_items mtd_possible same_text
finds = refl

-- Texts are cut at 64 characters.
abbrev vdr : Vdr
vdr = record { labels = labels; conv = take 64; text_length = 64 }

-- kOk at the CAM in slot 0, with the session 7, in which "1.a" comes.
abbrev at_cam : KeyPress
at_cam = record {
  key = ok_key;
  current = some 5;
  nc_done = false;
  session = pos 7;
  polls = λ n. some (b'1' ∷ b'.' ∷ b'a' ∷ []) ∷ [];
  ncis = netceiver ∷ [];
}

abbrev first_menu : Menu
first_menu = new_menu vdr (netceiver ∷ []) [] []

abbrev cam_menu : Menu
cam_menu =
    open_cam_menu vdr at_cam (record first_menu { current_selected = some 5; pin_counter = 0 })

opens : process_key vdr at_cam first_menu ≡ some (os_of_menu, cam_menu)
unfolding process_key process_free press press_ok new_menu
opens = refl

-- The session is open, and shows the text.
shows :
    (cam_menu.items ≡ text_item (b'1' ∷ b'.' ∷ b'a' ∷ []) ∷ [])
    × (cam_menu.calls ≡ sent (pos 7) zeros ∷ opened (pos 7) ∷ [])
unfolding open_cam_menu new_menu cam_find nci_items count_cams all_cam_items cam_items mtd_possible
    same_text lines
shows = (refl, refl)

labels-IsPlain : IsPlain labels
labels-IsPlain = record { error_plain = refl }

Keys-IsSound_example : IsSound vdr cam_menu
Keys-IsSound_example =
    Keys-IsSound vdr (netceiver ∷ []) [] [] cam_menu labels-IsPlain
      (next at_cam here tt (inr (inl (λ e. cc))) opens)

not_requested : is_requested first_menu.input_requested ≡ false
unfolding new_menu
not_requested = refl

press_digit-IsDone_example : (m' : Menu) × (press_digit vdr at_cam 1 first_menu ≡ some m')
press_digit-IsDone_example =
    press_digit-IsDone vdr at_cam 1 first_menu (omega arith) refl
      (λ text. omega (arith, length-take 64 text)) not_requested

-- A PIN is asked for, and "1" was entered.
abbrev pin_menu : Menu
pin_menu = record (fresh (b'1' ∷ []) []) {
  mmi_session = pos 6;
  in_cam_menu = true;
  input_requested = input_blind;
  pin_counter = 1;
  calls = opened (pos 6) ∷ [];
}

abbrev go_back : KeyPress
go_back = record at_cam { key = back_key }

back_closes_twice_example :
    (m' : Menu) × (process_key vdr go_back pin_menu ≡ some (os_continue, m'))
    × ((delete_menu m').calls ≡ closed (pos 6) ∷ closed (pos 6) ∷ opened (pos 6) ∷ [])
back_closes_twice_example = back_closes_twice vdr go_back pin_menu (refl, refl) refl refl

at_five :
    item_at (some 5) (back vdr go_back pin_menu).items
    ≡ some (info_item (97 ∷ []) 0 (some (101 ∷ 97 ∷ 115 ∷ 121 ∷ 46 ∷ 84 ∷ 86 ∷ [])))
unfolding leave cam_find nci_items count_cams all_cam_items cam_items mtd_possible same_text
at_five = refl

back_keeps_request_example :
    (m1 m2 m3 : Menu) × (process_key vdr go_back pin_menu ≡ some (os_continue, m1))
    × (process_key vdr at_cam m1 ≡ some (os_of_menu, m2))
    × (process_key vdr at_cam m2 ≡ some (os_of_menu, m3))
    × (m3.calls ≡ sent (pos 7) (b'1' ∷ []) ∷ m2.calls)
back_keeps_request_example =
    back_keeps_request vdr go_back at_cam at_cam pin_menu (97 ∷ []) 0 101
      (97 ∷ 115 ∷ 121 ∷ 46 ∷ 84 ∷ 86 ∷ []) (refl, refl) refl refl refl refl refl at_five refl refl

-- "a", an empty line, and "b" without its end.
abbrev a_and_b : List ℕ
a_and_b = b'a' ∷ b'\n' ∷ b'\n' ∷ b'b' ∷ []

receive-items_example :
    (receive vdr (none ∷ some a_and_b ∷ []) cam_menu).items
    ≡ text_item (b'a' ∷ []) ∷ text_item (b'b' ∷ []) ∷ []
unfolding open_cam_menu new_menu same_text
receive-items_example =
    receive-items vdr (none ∷ some a_and_b ∷ []) cam_menu a_and_b 6 ((b'a' ∷ []) ∷ [] ∷ [])
      (b'b' ∷ []) refl (inr (refl, refl)) (λ e. cc) ((λ e. omega (arith, e), tt), (tt, tt))
      (λ e. omega (arith, e), tt) refl
