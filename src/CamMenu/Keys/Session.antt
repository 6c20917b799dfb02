-- ===== src/CamMenu/Keys/Session.antt =====
-- The states of the menu of cam_menu.c: a session with a CAM, or the list of CAMs.
use vdr_plugin_mcli.Prelude.{
  subst, ◌⊎◌, ℕ, ◌≡◌, refl, sym, ◌∙◌, inl, inr, true, false, Option, none, some, List, [], ◌∷◌,
  arith, All, if_both, option_both,
}
use vdr_plugin_mcli.Prelude.Int.{ℤ, pos, negsuc}
use vdr_plugin_mcli.CamMenu.Find.{MenuItem, text_item, info_item, mtd_item, item_text}
use vdr_plugin_mcli.CamMenu.Find.Plain.{Plain, IsPlain, cam_find-Plain}
use vdr_plugin_mcli.CamMenu.Menu.{
  open_item, show_opened, MmiCall, opened, sent, closed, cam_reset, Menu, KeyPress, Vdr,
  is_positive, item_at, first_text, show_text, receive, send, leave, open_cam_menu,
}

-- The session that is open behind calls, the last one first.
abbrev pub open_session : List MmiCall → Option ℤ
open_session [] = none
open_session (opened s ∷ calls) = some s
open_session (closed s ∷ calls) = none
open_session (sent s text ∷ calls) = open_session calls
open_session (cam_reset uuid slot ∷ calls) = open_session calls

-- Each answer is sent to the session that is open then.
abbrev pub AllSent : List MmiCall → Type 0
AllSent [] = Unit
AllSent (sent s text ∷ calls) = (open_session calls ≡ some s) × AllSent calls
AllSent (opened s ∷ calls) = AllSent calls
AllSent (closed s ∷ calls) = AllSent calls
AllSent (cam_reset uuid slot ∷ calls) = AllSent calls

-- The menu of a CAM is shown, and its session is open.
pub record InSession (m : Menu) : Type 0 where
  pub shown : m.in_cam_menu ≡ true
  pub running : is_positive m.mmi_session ≡ true
  pub is_open : open_session m.calls ≡ some m.mmi_session
  pub in_sent : AllSent m.calls
  pub in_own : m.in_mmi_broadcast_menu ≡ false

-- The list of CAMs is shown, in which no item begins with a digit.
pub record InList (v : Vdr) (m : Menu) : Type 0 where
  pub in_list : m.in_cam_menu ≡ false
  pub plain : All (Plain v.labels) m.items
  pub list_sent : AllSent m.calls
  pub list_own : m.in_mmi_broadcast_menu ≡ false

abbrev pub IsSound : Vdr → Menu → Type 0
IsSound v m = InSession m ⊎ InList v m

-- What Receive leaves alone.
abbrev pub Keeps : Menu → Menu → Type 0
Keeps m m' =
    (m'.mmi_session ≡ m.mmi_session)
    × (m'.calls ≡ m.calls)
    × (m'.in_cam_menu ≡ m.in_cam_menu)
    × (m'.in_mmi_broadcast_menu ≡ m.in_mmi_broadcast_menu)

show_text-Keeps : (v : Vdr) (text : List ℕ) (m : Menu) → Keeps m (show_text v text m)
unfolding show_text
show_text-Keeps v text m =
    if_both (Keeps m) _ _ _ (λ e. (refl, refl, refl, refl)) (λ e. (refl, refl, refl, refl))

pub receive-Keeps :
    (v : Vdr) (polls : List (Option (List ℕ))) (m : Menu) → Keeps m (receive v polls m)
unfolding receive
receive-Keeps v polls m =
    if_both (Keeps m) (is_positive m.mmi_session) _ _
      (λ p.
        if_both (Keeps m) m.already_received _ _ (λ a. show_text-Keeps v m.buf m)
          (λ a.
            option_both (Keeps m) (first_text polls) _ _ (λ e. (refl, refl, refl, refl))
              (λ text e. show_text-Keeps v text m)))
      (λ p. (refl, refl, refl, refl))

pub Keeps-InSession : (m m' : Menu) → Keeps m m' → InSession m → InSession m'
Keeps-InSession m m' (a, b, c, d) s = ground arith

pub receive-InSession :
    (v : Vdr) (polls : List (Option (List ℕ))) (m : Menu)
    → InSession m
    → InSession (receive v polls m)
receive-InSession v polls m s = Keeps-InSession m (receive v polls m) (receive-Keeps v polls m) s

-- An answer in a session, and the text that comes.
pub answer-InSession :
    (v : Vdr) (polls : List (Option (List ℕ))) (text : List ℕ) (m : Menu)
    → InSession m
    → InSession (receive v polls (send text m))
answer-InSession v polls text m s = receive-InSession v polls (send text m) (record {
  shown = s.shown;
  running = s.running;
  is_open = s.is_open;
  in_sent = (s.is_open, s.in_sent);
  in_own = s.in_own;
})

-- What holds of a result, if there is one.
abbrev pub Each {ℓ} : {A : Type 0} → (A → Type ℓ) → Option A → Type ℓ
Each P none = Unit
Each P (some a) = P a

pub leave-InList :
    (v : Vdr) (k : KeyPress) (m : Menu)
    → m.in_cam_menu ≡ false
    → AllSent m.calls
    → m.in_mmi_broadcast_menu ≡ false
    → InList v (leave v k m)
unfolding leave
leave-InList v k m i a b = record {
  in_list = i;
  plain = cam_find-Plain v.labels k.ncis;
  list_sent = a;
  list_own = b;
}

-- CamMenuOpen opens a session and answers in it, or changes the number of the session alone.
abbrev Opens : Menu → Menu → Type 0
Opens m m' =
    (m'.items ≡ m.items)
    × (m'.in_mmi_broadcast_menu ≡ m.in_mmi_broadcast_menu)
    × AllSent m'.calls
    × (m'.in_cam_menu ≡ m.in_cam_menu)
    × (is_positive m'.mmi_session ≡ true → open_session m'.calls ≡ some m'.mmi_session)

open_item-Opens :
    (v : Vdr) (session : ℤ) (item : Option MenuItem) (m : Menu)
    → AllSent m.calls
    → Opens m (open_item session item m)
unfolding open_item
open_item-Opens v session none m a = (refl, refl, a, refl, λ p. ground arith)
open_item-Opens v session (some (text_item t)) m a = (refl, refl, a, refl, λ p. ground arith)
open_item-Opens v session (some (mtd_item t)) m a = (refl, refl, a, refl, λ p. ground arith)
open_item-Opens v session (some (info_item uuid slot none)) m a =
    (refl, refl, a, refl, λ p. ground arith)
open_item-Opens v session (some (info_item uuid slot (some []))) m a =
    (refl, refl, a, refl, λ p. ground arith)
open_item-Opens v session (some (info_item uuid slot (some (x ∷ info)))) m a =
    if_both (Opens m) (is_positive session) _ _ (λ p. (refl, refl, (refl, a), refl, λ q. refl))
      (λ p. (refl, refl, a, refl, λ q. ground arith))

pub open_menu-Sound :
    (v : Vdr) (k : KeyPress) (m : Menu)
    → IsPlain v.labels
    → InList v m
    → IsSound v (open_cam_menu v k m)
unfolding open_cam_menu show_opened item_text
open_menu-Sound v k m h s =
    let m' : Menu = open_item k.session (item_at m.current_selected m.items) m in
    let o = open_item-Opens v k.session (item_at m.current_selected m.items) m s.list_sent in
    let failed : Menu = record m' { items = text_item v.labels.error ∷ [] } in
    if_both (IsSound v) (is_positive m'.mmi_session) _ _
      (λ p. inl (
        option_both InSession (first_text (k.polls 0)) _ _
          (λ e. record {
            shown = refl;
            running = p;
            is_open = o.4 p;
            in_sent = o.2;
            in_own = o.1 ∙ s.list_own;
          })
          (λ t e. record {
            shown = refl;
            running = p;
            is_open = o.4 p;
            in_sent = o.2;
            in_own = o.1 ∙ s.list_own;
          })))
      (λ p.
        inr (elim (m'.mmi_session) as (λ z. InList v (elim z [ pos n ↦ m' | negsuc n ↦ failed ])) [
          | pos n ↦ record {
            in_list = o.3 ∙ s.in_list;
            plain = subst (All (Plain v.labels)) (sym o.0) s.plain;
            list_sent = o.2;
            list_own = o.1 ∙ s.list_own;
          }
          | negsuc n ↦ record {
            in_list = o.3 ∙ s.in_list;
            plain = (h.error_plain, tt);
            list_sent = o.2;
            list_own = o.1 ∙ s.list_own;
          }
        ]))
