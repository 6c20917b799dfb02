-- ===== src/CamMenu/Keys/Leftover.antt =====
-- What kBack leaves in the menu of cam_menu.c: the number of a session that is closed, and a request.
use vdr_plugin_mcli.Prelude.{
  ℕ, ◌≡◌, refl, ◌∙◌, true, false, Option, some, List, ◌∷◌, subst, ap₂, sym, if_both, option_both,
}
use vdr_plugin_mcli.Prelude.Int.{ℤ}
use vdr_plugin_mcli.CamMenu.Find.{MenuItem, info_item}
use vdr_plugin_mcli.CamMenu.Menu.{
  opened, sent, closed, Menu, KeyPress, Vdr, ok_key, back_key, os_continue, os_of_menu,
  is_requested, is_positive, item_at, leave, open_item, show_opened, send, open_cam_menu, receive,
  zeros, input_none, first_text,
}
use vdr_plugin_mcli.CamMenu.Keys.{
  press_ok, press_back, press, process_free, process_key, delete_menu,
}
use vdr_plugin_mcli.CamMenu.Keys.Session.{receive-Keeps}

-- No thread saves the settings and no text "end" came, so that a key is looked at.
abbrev pub IsFree : Menu → Type 0
IsFree m = (m.nc_update ≡ false) × (m.end ≡ false)

process_key-free :
    (v : Vdr) (k : KeyPress) (m : Menu)
    → IsFree m
    → process_key v k m ≡ press v k k.key (record m { current_selected = k.current })
unfolding process_key process_free
process_key-free v k m (u, e) = rw (u, e) refl

-- The menu behind kBack.
abbrev pub back : Vdr → KeyPress → Menu → Menu
back v k m =
    leave v k (record m { current_selected = k.current; pin_counter = 0; in_cam_menu = false })

process_key-back :
    (v : Vdr) (k : KeyPress) (m : Menu)
    → IsFree m
    → k.key ≡ back_key
    → m.in_cam_menu ≡ true
    → process_key v k m ≡ some (os_continue, back v k m)
unfolding press press_back
process_key-back v k m f b c = process_key-free v k m f ∙ rw (b, c) refl

process_key-open :
    (v : Vdr) (k : KeyPress) (m : Menu)
    → IsFree m
    → k.key ≡ ok_key
    → m.in_cam_menu ≡ false
    → m.in_mmi_broadcast_menu ≡ false
    → process_key v k m
      ≡ some (
        os_of_menu,
        open_cam_menu v k (record m { current_selected = k.current; pin_counter = 0 }),
      )
unfolding press press_ok
process_key-open v k m f o c b = process_key-free v k m f ∙ rw (o, c, b) refl

-- The menu behind kOk where input is requested.
abbrev answered : Vdr → KeyPress → Menu → Menu
answered v k m = receive v (k.polls 0) (
    send m.pin
      (record m { current_selected = k.current; pin_counter = 0; input_requested = input_none }))

process_key-answered :
    (v : Vdr) (k : KeyPress) (m : Menu)
    → IsFree m
    → k.key ≡ ok_key
    → m.in_cam_menu ≡ true
    → is_requested m.input_requested ≡ true
    → process_key v k m ≡ some (os_of_menu, answered v k m)
unfolding press press_ok
process_key-answered v k m f o c r = process_key-free v k m f ∙ rw (o, c, r) refl

-- Behind kBack in the menu of a CAM, the destructor closes the session for the second time.
pub back_closes_twice :
    (v : Vdr) (k : KeyPress) (m : Menu)
    → IsFree m
    → k.key ≡ back_key
    → m.in_cam_menu ≡ true
    → (m' : Menu) × (process_key v k m ≡ some (os_continue, m'))
      × ((delete_menu m').calls ≡ closed m.mmi_session ∷ closed m.mmi_session ∷ m.calls)
unfolding delete_menu leave
back_closes_twice v k m f b c = (back v k m, process_key-back v k m f b c, refl)

-- What OpenCamMenu leaves alone where a session is opened, and its calls.
abbrev IsOpened : ℤ → Menu → Menu → Type 0
IsOpened s m m' =
    (m'.calls ≡ sent s zeros ∷ opened s ∷ m.calls)
    × (m'.in_cam_menu ≡ true)
    × (m'.mmi_session ≡ s)
    × (m'.input_requested ≡ m.input_requested)
    × (m'.pin ≡ m.pin)
    × (IsFree m')

show_opened-IsOpened :
    (v : Vdr) (k : KeyPress) (m : Menu) (session : ℤ)
    → IsFree m
    → is_positive session ≡ true
    → IsOpened session m (
        show_opened v k
          (send zeros (record m { mmi_session = session; calls = opened session ∷ m.calls })))
unfolding show_opened
show_opened-IsOpened v k m session f p =
    if_both (IsOpened session m) (is_positive session) _ _
      (λ q.
        option_both (IsOpened session m) (first_text (k.polls 0)) _ _
          (λ e. (refl, refl, refl, refl, refl, f)) (λ t e. (refl, refl, refl, refl, refl, f)))
      (λ q. absurd (cc (p, q)))

open_item-opened :
    (session : ℤ) (m : Menu) (item : Option MenuItem) (uuid : List ℕ) (slot x : ℕ) (info : List ℕ)
    → is_positive session ≡ true
    → item ≡ some (info_item uuid slot (some (x ∷ info)))
    → open_item session item m
      ≡ send zeros (record m { mmi_session = session; calls = opened session ∷ m.calls })
unfolding open_item
open_item-opened session m item uuid slot x info p i = rw (i, p) refl

open_menu-IsOpened :
    (v : Vdr) (k : KeyPress) (m : Menu) (uuid : List ℕ) (slot x : ℕ) (info : List ℕ)
    → IsFree m
    → is_positive k.session ≡ true
    → item_at m.current_selected m.items ≡ some (info_item uuid slot (some (x ∷ info)))
    → IsOpened k.session m (open_cam_menu v k m)
unfolding open_cam_menu
open_menu-IsOpened v k m uuid slot x info f p i =
    subst (λ o. IsOpened k.session m (show_opened v k o))
      (sym (open_item-opened k.session m (item_at m.current_selected m.items) uuid slot x info p i))
      (show_opened-IsOpened v k m k.session f p)

-- kOk behind kBack in a request for input, and then behind the opening of a CAM: the text of the request
-- before is sent again, whatever item is chosen.
pub back_keeps_request :
    (v : Vdr) (k1 k2 k3 : KeyPress) (m : Menu) (uuid : List ℕ) (slot x : ℕ) (info : List ℕ)
    → IsFree m
    → m.in_cam_menu ≡ true
    → m.in_mmi_broadcast_menu ≡ false
    → is_requested m.input_requested ≡ true
    → k1.key ≡ back_key
    → k2.key ≡ ok_key
    → item_at k2.current (back v k1 m).items ≡ some (info_item uuid slot (some (x ∷ info)))
    → is_positive k2.session ≡ true
    → k3.key ≡ ok_key
    → (m1 m2 m3 : Menu) × (process_key v k1 m ≡ some (os_continue, m1))
      × (process_key v k2 m1 ≡ some (os_of_menu, m2))
      × (process_key v k3 m2 ≡ some (os_of_menu, m3))
      × (m3.calls ≡ sent k2.session m.pin ∷ m2.calls)
unfolding leave
back_keeps_request v k1 k2 k3 m uuid slot x info f c b r b1 o2 i p o3 =
    let m1 = back v k1 m in
    let m1' : Menu = record m1 { current_selected = k2.current; pin_counter = 0 } in
    let m2 = open_cam_menu v k2 m1' in
    let o = open_menu-IsOpened v k2 m1' uuid slot x info f p i in
    let m2' : Menu = record m2 {
      current_selected = k3.current;
      pin_counter = 0;
      input_requested = input_none;
    } in
    (
      m1,
      m2,
      answered v k3 m2,
      process_key-back v k1 m f b1 c,
      process_key-open v k2 m1 f o2 refl b,
      process_key-answered v k3 m2 o.5 o3 o.1 (subst (λ q. is_requested q ≡ true) (sym o.3) r),
      (receive-Keeps v (k3.polls 0) (send m2.pin m2')).1 ∙ ap₂ (λ s t. sent s t ∷ m2.calls) o.2 o.4,
    )
