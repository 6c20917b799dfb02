-- ===== src/CamMenu/Keys/Sent.antt =====
-- To which sessions the keys of the menu of cam_menu.c send answers.
use vdr_plugin_mcli.Prelude.{
  ◌≢◌, subst, ◌⊎◌, ℕ, ◌<◌, ◌≡◌, refl, inl, inr, true, false, Option, none, some, List, [], ◌∷◌,
  if_both,
}
use vdr_plugin_mcli.CamMenu.Find.{can_cam_reset, MenuItem, text_item, info_item, mtd_item, MenuNci}
use vdr_plugin_mcli.CamMenu.Find.Plain.{IsPlain, cam_find-Plain}
use vdr_plugin_mcli.CamMenu.Menu.{
  OsState, red_key, yellow_key, ok_key, back_key, digit_key, other_key, cam_reset, Menu, KeyPress,
  Vdr, Key, is_positive, item_at, first_text, leave,
}
use vdr_plugin_mcli.CamMenu.Keys.{
  heard, of_menu, press_other, press_yellow, press_ok, press_digit, press_back, press, process_free,
  process_key, new_menu,
}
use vdr_plugin_mcli.CamMenu.Keys.Session.{
  InList, IsSound, Keeps-InSession, receive-InSession, Each, leave-InList,
}
use vdr_plugin_mcli.CamMenu.Keys.Answers.{Unmoved-Sound, press_ok-Sound, press_digit-Sound}

-- A CAM whose menu is not shown sends no text to a menu that waits for keys: its session is closed.
abbrev pub Heard : Menu → KeyPress → Type 0
Heard m k = (m.in_cam_menu ≡ true) ⊎ ((k.key ≢ other_key) ⊎ (first_text (k.polls 0) ≡ none))

heard-Sound :
    (v : Vdr) (polls : List (Option (List ℕ))) (m : Menu)
    → (m.in_cam_menu ≡ true) ⊎ (first_text polls ≡ none)
    → IsSound v m
    → IsSound v (heard v polls m)
heard-Sound v [] m q s = s
heard-Sound v (none ∷ polls) m q s = s
heard-Sound v (some text ∷ polls) m (inr e) s = absurd (cc (e))
heard-Sound v (some text ∷ polls) m (inl c) (inr s) = absurd (cc (c, s.in_list))
heard-Sound v (some text ∷ polls) m (inl c) (inl s) =
    let m' : Menu = record m { already_received = true; buf = text } in
    inl (receive-InSession v [] m' (Keeps-InSession m m' (refl, refl, refl, refl) s))

press_other-Sound :
    (v : Vdr) (k : KeyPress) (m : Menu)
    → (m.in_cam_menu ≡ true) ⊎ (first_text (k.polls 0) ≡ none)
    → IsSound v m
    → IsSound v (press_other v k m)
unfolding press_other
press_other-Sound v k m q s =
    if_both (IsSound v) (is_positive m.mmi_session) _ _ (λ p. heard-Sound v (k.polls 0) m q s)
      (λ p. s)

cam_reset-Sound :
    (v : Vdr) (uuid : List ℕ) (slot : ℕ) (m : Menu)
    → IsSound v m
    → IsSound v (record m { calls = cam_reset uuid slot ∷ m.calls })
cam_reset-Sound v uuid slot m (inl s) = inl (record {
  shown = s.shown;
  running = s.running;
  is_open = s.is_open;
  in_sent = s.in_sent;
  in_own = s.in_own;
})
cam_reset-Sound v uuid slot m (inr s) = inr (record {
  in_list = s.in_list;
  plain = s.plain;
  list_sent = s.list_sent;
  list_own = s.list_own;
})

press_yellow-Sound :
    (v : Vdr) (item : Option MenuItem) (m : Menu) → IsSound v m → IsSound v (press_yellow item m)
press_yellow-Sound v none m s = s
press_yellow-Sound v (some (text_item t)) m s = s
press_yellow-Sound v (some (mtd_item t)) m s = s
press_yellow-Sound v (some (info_item uuid slot info)) m s =
    if_both (IsSound v) (can_cam_reset (some slot) info) _ _ (λ e. cam_reset-Sound v uuid slot m s)
      (λ e. s)

leave-Sound :
    (v : Vdr) (k : KeyPress) (m : Menu)
    → IsSound v m
    → InList v (leave v k (record m { in_cam_menu = false }))
leave-Sound v k m (inl s) =
    leave-InList v k (record m { in_cam_menu = false }) refl s.in_sent s.in_own
leave-Sound v k m (inr s) =
    leave-InList v k (record m { in_cam_menu = false }) refl s.list_sent s.list_own

-- Whether a key is one of the keyboard.
abbrev pub IsKey : Key → Type 0
IsKey (digit_key d) = d < 10
IsKey key = Unit

abbrev After : Vdr → Option (OsState × Menu) → Type 0
After v out = Each (λ r. IsSound v r.1) out

of_menu-Sound : (v : Vdr) (out : Option Menu) → Each (IsSound v) out → After v (of_menu out)
of_menu-Sound v none h = tt
of_menu-Sound v (some m) h = h

press-Sound :
    (v : Vdr) (k : KeyPress) (key : Key) (m : Menu)
    → IsPlain v.labels
    → IsKey key
    → (m.in_cam_menu ≡ true) ⊎ ((key ≢ other_key) ⊎ (first_text (k.polls 0) ≡ none))
    → IsSound v m
    → After v (press v k key m)
unfolding press press_back
press-Sound v k red_key m h d q s = Unmoved-Sound v m _ ((refl, refl, refl, refl), refl) s
press-Sound v k yellow_key m h d q s = press_yellow-Sound v (item_at m.current_selected m.items) m s
press-Sound v k ok_key m h d q s = of_menu-Sound v (press_ok v k m) (press_ok-Sound v k m h s)
press-Sound v k back_key m h d q s =
    let m1 : Menu = record m { pin_counter = 0 } in
    let s1 = Unmoved-Sound v m m1 ((refl, refl, refl, refl), refl) s in
    if_both (λ (r : OsState × Menu). IsSound v r.1) m.in_cam_menu _ _
      (λ c. inr (leave-Sound v k m1 s1)) (λ c. s1)
press-Sound v k (digit_key n) m h d q s =
    of_menu-Sound v (press_digit v k n m) (press_digit-Sound v k n m d s)
press-Sound v k other_key m h d (inl c) s = press_other-Sound v k m (inl c) s
press-Sound v k other_key m h d (inr (inl n)) s = absurd (n refl)
press-Sound v k other_key m h d (inr (inr e)) s = press_other-Sound v k m (inr e) s

own : (v : Vdr) (m : Menu) → IsSound v m → m.in_mmi_broadcast_menu ≡ false
own v m (inl s) = s.in_own
own v m (inr s) = s.list_own

-- A key keeps a sound menu sound.
process_key-Sound :
    (v : Vdr) (k : KeyPress) (m : Menu)
    → IsPlain v.labels
    → IsKey k.key
    → Heard m k
    → IsSound v m
    → After v (process_key v k m)
unfolding process_key process_free
process_key-Sound v k m h d q s =
    let m1 : Menu = record m { current_selected = k.current } in
    if_both (After v) m.nc_update _ _
      (λ u.
        if_both (λ (r : OsState × Menu). IsSound v r.1) k.nc_done _ _
          (λ e. Unmoved-Sound v m _ ((refl, refl, refl, refl), refl) s) (λ e. s))
      (λ u.
        if_both (After v) m.end _ _
          (λ e.
            if_both (λ (r : OsState × Menu). IsSound v r.1) m.in_mmi_broadcast_menu _ _
              (λ b. absurd (cc (b, own v m s)))
              (λ b. inr (
                leave-Sound v k (record m1 { end = false })
                  (Unmoved-Sound v m _ ((refl, refl, refl, refl), refl) s))))
          (λ e.
            press-Sound v k k.key m1 h d q
              (Unmoved-Sound v m m1 ((refl, refl, refl, refl), refl) s)))

-- The states that a menu reaches by keys, for which libmcli keeps to `Heard`.
pub data Keys (v : Vdr) : Menu → Menu → Type 0 where
  here : {m : Menu} → Keys v m m
  next :
      {m m1 : Menu} (k : KeyPress) {state : OsState} {m2 : Menu}
      → Keys v m m1
      → IsKey k.key
      → Heard m1 k
      → process_key v k m1 ≡ some (state, m2)
      → Keys v m m2

Keys-Sound : (v : Vdr) (m m' : Menu) → IsPlain v.labels → Keys v m m' → IsSound v m → IsSound v m'
Keys-Sound v m m' h here s = s
Keys-Sound v m m' h (next {m1} k {state} {m2} ks d q e) s =
    subst (After v) e (process_key-Sound v k m1 h d q (Keys-Sound v m m1 h ks s))

-- Where the line for an error does not begin with a digit: from a new menu of which the list of
-- CAMs is shown, behind any keys at which a menu that shows no CAM gets no text, the menu shows a
-- list of which no item begins with a digit, or a session is open; and each answer so far was sent
-- to the session that was open then.
pub Keys-IsSound :
    (v : Vdr) (ncis : List MenuNci) (pin buf : List ℕ) (m : Menu)
    → IsPlain v.labels
    → Keys v (new_menu v ncis pin buf) m
    → IsSound v m
unfolding new_menu
Keys-IsSound v ncis pin buf m h ks = Keys-Sound v (new_menu v ncis pin buf) m h ks (
    inr (record {
      in_list = refl;
      plain = cam_find-Plain v.labels ncis;
      list_sent = tt;
      list_own = refl;
    }))
