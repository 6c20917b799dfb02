-- ===== src/CamMenu/Keys/Answers.antt =====
-- The answers that keys of the menu of cam_menu.c send to a CAM.
use vdr_plugin_mcli.Prelude.{
  ◌*◌, take, All-get_elem?, same_text, subst, get_elem?, ℕ, zero, suc, ◌+◌, ◌<◌, ◌≡◌, refl, sym,
  ◌∙◌, inl, inr, ◌&&◌, false, Option, none, some, List, [], ◌∷◌, arith, All, if_both, option_both,
  length,
}
use vdr_plugin_mcli.CamMenu.Find.{enter_digit, item_text}
use vdr_plugin_mcli.CamMenu.Find.Plain.{starts_digit, Plain, IsPlain}
use vdr_plugin_mcli.CamMenu.Menu.{
  is_blind, is_requested, input_none, Menu, KeyPress, Vdr, item_at, receive, send,
}
use vdr_plugin_mcli.CamMenu.Keys.{is_answer, digit_loop, press_ok, press_digit}
use vdr_plugin_mcli.CamMenu.Keys.Session.{
  Keeps, AllSent, InSession, InList, IsSound, Keeps-InSession, receive-InSession, answer-InSession,
  Each, open_menu-Sound,
}

-- Where a menu of a CAM is shown, kOk and the digits leave one.
press_ok-InSession :
    (v : Vdr) (k : KeyPress) (m : Menu) → InSession m → Each InSession (press_ok v k m)
unfolding press_ok
press_ok-InSession v k m s =
    let m1 : Menu = record m { pin_counter = 0 } in
    let m2 : Menu = record m1 { input_requested = input_none } in
    let s1 = Keeps-InSession m m1 (refl, refl, refl, refl) s in
    let P : Option Menu → Type 0 = Each InSession in
    if_both P (m.in_cam_menu && is_requested m.input_requested) _ _
      (λ r.
        answer-InSession v (k.polls 0) m.pin m2 (Keeps-InSession m m2 (refl, refl, refl, refl) s))
      (λ r.
        if_both P m.in_mmi_broadcast_menu _ _ (λ b. absurd (cc (b, s.in_own)))
          (λ b.
            if_both P m.in_cam_menu _ _
              (λ c.
                option_both P (item_at m1.current_selected m1.items) _ _ (λ e. tt)
                  (λ it e.
                    let text = item_text v.labels it in
                    if_both (λ x. InSession (receive v (k.polls 0) x))
                      (same_text text v.labels.error) m1 (send text m1)
                      (λ q. receive-InSession v (k.polls 0) m1 s1)
                      (λ q. answer-InSession v (k.polls 0) text m1 s1)))
              (λ c. absurd (cc (c, s.shown)))))

digit_loop-InSession :
    (v : Vdr) (k : KeyPress) (d fuel i n : ℕ) (m : Menu)
    → InSession m
    → Each InSession (digit_loop v k d fuel i n m)
unfolding digit_loop
digit_loop-InSession v k d zero i n m s = tt
digit_loop-InSession v k d (suc fuel) i n m s =
    option_both (Each InSession) (get_elem? m.items i) _ _ (λ e. s)
      (λ it e. digit_loop-InSession v k d fuel (suc i) _ _ (
        if_both InSession (is_answer d (item_text v.labels it)) _ _
          (λ a. answer-InSession v (k.polls n) (item_text v.labels it) m s) (λ a. s)))

-- In the list no item is an answer.
pub not_answer :
    (d : ℕ) (text : List ℕ) → d < 10 → starts_digit text ≡ false → is_answer d text ≡ false
not_answer d [] h p = refl
not_answer d (x ∷ []) h p = refl
not_answer d (x ∷ y ∷ text) h p = ground arith

digit_loop-InList :
    (v : Vdr) (k : KeyPress) (d fuel i n : ℕ) (m : Menu)
    → d < 10
    → InList v m
    → Each (InList v) (digit_loop v k d fuel i n m)
unfolding digit_loop
digit_loop-InList v k d zero i n m h s = tt
digit_loop-InList v k d (suc fuel) i n m h s =
    option_both (Each (InList v)) (get_elem? m.items i) _ _ (λ e. s)
      (λ it e.
        rw
          (not_answer d (item_text v.labels it) h
            (All-get_elem? (Plain v.labels) m.items i it s.plain e))
          (digit_loop-InList v k d fuel (suc i) n m h s))

-- What neither the session nor the list depends on.
abbrev pub Unmoved : Menu → Menu → Type 0
Unmoved m m' = Keeps m m' × (m'.items ≡ m.items)

pub Unmoved-Sound : (v : Vdr) (m m' : Menu) → Unmoved m m' → IsSound v m → IsSound v m'
Unmoved-Sound v m m' (k, e) (inl s) = inl (Keeps-InSession m m' k s)
Unmoved-Sound v m m' ((a, b, c, d), e) (inr s) = inr (record {
  in_list = c ∙ s.in_list;
  plain = subst (All (Plain v.labels)) (sym e) s.plain;
  list_sent = subst AllSent (sym b) s.list_sent;
  list_own = d ∙ s.list_own;
})

Each-map {ℓ} :
    {A : Type 0} {P Q : A → Type ℓ} (o : Option A) → ((a : A) → P a → Q a) → Each P o → Each Q o
Each-map none f h = tt
Each-map (some a) f h = f a h

press_ok-list :
    (v : Vdr) (k : KeyPress) (m : Menu)
    → IsPlain v.labels
    → InList v m
    → Each (IsSound v) (press_ok v k m)
unfolding press_ok
press_ok-list v k m h s =
    let m1 : Menu = record m { pin_counter = 0 } in
    let P : Option Menu → Type 0 = Each (IsSound v) in
    if_both P (m.in_cam_menu && is_requested m.input_requested) _ _
      (λ r. absurd (ground (arith, s.in_list)))
      (λ r.
        if_both P m.in_mmi_broadcast_menu _ _ (λ b. absurd (cc (b, s.list_own)))
          (λ b.
            if_both P m.in_cam_menu _ _ (λ c. absurd (cc (c, s.in_list)))
              (λ c. open_menu-Sound v k m1 h (record {
                in_list = s.in_list;
                plain = s.plain;
                list_sent = s.list_sent;
                list_own = s.list_own;
              }))))

pub press_ok-Sound :
    (v : Vdr) (k : KeyPress) (m : Menu)
    → IsPlain v.labels
    → IsSound v m
    → Each (IsSound v) (press_ok v k m)
press_ok-Sound v k m h (inl s) =
    Each-map (press_ok v k m) (λ a x. inl x) (press_ok-InSession v k m s)
press_ok-Sound v k m h (inr s) = press_ok-list v k m h s

pub press_digit-Sound :
    (v : Vdr) (k : KeyPress) (d : ℕ) (m : Menu)
    → d < 10
    → IsSound v m
    → Each (IsSound v) (press_digit v k d m)
unfolding press_digit
press_digit-Sound v k d m h s =
    let m1 : Menu = record m { pin_counter = 0 } in
    let fuel : ℕ = 2 * (length m.items + v.text_length) + 1 in
    if_both (Each (IsSound v)) (is_requested m.input_requested) _ _
      (λ r.
        option_both (Each (IsSound v))
          (enter_digit (is_blind m.input_requested) d (take m.pin_counter m.pin)) _ _ (λ e. tt)
          (λ out e. Unmoved-Sound v m _ ((refl, refl, refl, refl), refl) s))
      (λ r. elim (Unmoved-Sound v m m1 ((refl, refl, refl, refl), refl) s) [
        | inl t ↦
            Each-map (digit_loop v k d fuel 0 0 m1) (λ a x. inl x)
              (digit_loop-InSession v k d fuel 0 0 m1 t)
        | inr t ↦
            Each-map (digit_loop v k d fuel 0 0 m1) (λ a x. inr x)
              (digit_loop-InList v k d fuel 0 0 m1 h t)
      ])
