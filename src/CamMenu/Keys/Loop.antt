-- ===== src/CamMenu/Keys/Loop.antt =====
-- The loop over the items at a digit key in cam_menu.c ends, although the items change in it.
use vdr_plugin_mcli.Prelude.{
  ℕ, zero, suc, ◌+◌, ◌*◌, ◌≤◌, ◌<◌, ◌≡◌, refl, sym, ap, ◌∙◌, subst, inl, inr, ◌⊎◌, true, false,
  Bool-cases, Option-cases, Option, some, List, [], ◌∷◌, ◌++◌, arith, length, length-append,
  length-map, length-replicate, replicate, get_elem?, append-nil, append_assoc, ltb, tests,
  same_text, drop, if◌then◌else◌, if_both, option_both,
}
use vdr_plugin_mcli.CamMenu.Find.{MenuItem, text_item, item_text}
use vdr_plugin_mcli.CamMenu.Find.Plain.{starts_digit}
use vdr_plugin_mcli.CamMenu.Lines.{lines}
use vdr_plugin_mcli.CamMenu.Lines.Join.{length-lines}
use vdr_plugin_mcli.CamMenu.Menu.{
  request, is_requested, Menu, KeyPress, Vdr, is_positive, first_text, text_items, show_text,
  show_error, receive, send,
}
use vdr_plugin_mcli.CamMenu.Keys.{is_answer, digit_loop, press_digit}
use vdr_plugin_mcli.CamMenu.Keys.Answers.{not_answer}

module _ {ℓ} {A : Type ℓ} where
  -- An entry that is there is within the list.
  get_elem?-lt : (xs : List A) (i : ℕ) (a : A) → get_elem? xs i ≡ some a → i < length xs
  get_elem?-lt [] i a e = absurd (cc)
  get_elem?-lt (x ∷ xs) zero a e = omega arith
  get_elem?-lt (x ∷ xs) (suc i) a e = omega (arith, get_elem?-lt xs i a e)

  -- Behind a list come copies.
  get_elem?-copies :
      (xs : List A) (r a : A) (e i : ℕ)
      → length xs ≤ i
      → get_elem? (xs ++ replicate e r) i ≡ some a
      → a ≡ r
  get_elem?-copies [] r a zero i h g = absurd (cc)
  get_elem?-copies [] r a (suc e) zero h g = cc
  get_elem?-copies [] r a (suc e) (suc i) h g = get_elem?-copies [] r a e i (omega arith) g
  get_elem?-copies (x ∷ xs) r a e zero h g = absurd (omega (arith, h))
  get_elem?-copies (x ∷ xs) r a e (suc i) h g = get_elem?-copies xs r a e i (omega (arith, h)) g

  replicate-suc : (e : ℕ) (r : A) → replicate e r ++ r ∷ [] ≡ r ∷ replicate e r
  replicate-suc zero r = refl
  replicate-suc (suc e) r = ap (r ∷◌) (replicate-suc e r)

-- The items are those of a text, `bound` at most, and behind them the lines "Error" of the items
-- before index i.
abbrev Split : Vdr → (bound i : ℕ) → Menu → Type 0
Split v bound i m =
    (xs : List MenuItem) × (e : ℕ) × (m.items ≡ xs ++ replicate e (text_item v.labels.error))
    × (length xs ≤ bound)
    × (e ≤ i)
    × (e ≤ bound)

abbrev Bounds : Vdr → ℕ → Type 0
Bounds v bound = (text : List ℕ) → length (text_items v text) ≤ bound

show_text-items :
    (v : Vdr) (text : List ℕ) (m : Menu)
    → ((show_text v text m).items ≡ [])
      ⊎ ((t : List ℕ) × ((show_text v text m).items ≡ text_items v t))
unfolding show_text
show_text-items v text m = elim (Bool-cases (same_text text (b'e' ∷ b'n' ∷ b'd' ∷ []))) [
  | inl e ↦ inl (rw e refl)
  | inr e ↦
      let asks = request text m.input_requested in
      inr (if is_requested asks then drop 28 text else text, rw e refl)
]

show_text-Split :
    (v : Vdr) (bound i : ℕ) (text : List ℕ) (m : Menu)
    → Bounds v bound
    → Split v bound i (show_text v text m)
show_text-Split v bound i text m b = elim (show_text-items v text m) [
  | inl e ↦ ([], 0, e, omega arith, omega arith, omega arith)
  | inr (t, e) ↦
      (text_items v t, 0, e ∙ sym (append-nil (text_items v t)), b t, omega arith, omega arith)
]

show_error-Split :
    (v : Vdr) (bound i : ℕ) (m : Menu)
    → i < bound
    → Split v bound i m
    → Split v bound (suc i) (show_error v m)
show_error-Split v bound i m h (xs, e, eq, l, ei, eb) =
    let r : MenuItem = text_item v.labels.error in
    (
      xs,
      suc e,
      ap (λ ys. ys ++ r ∷ []) eq
          ∙ append_assoc xs (replicate e r) (r ∷ [])
          ∙ ap (xs ++◌) (replicate-suc e r),
      l,
      omega (arith, ei),
      omega (arith, ei, h),
    )

receive-Split :
    (v : Vdr) (bound i : ℕ) (polls : List (Option (List ℕ))) (m : Menu)
    → Bounds v bound
    → i < bound
    → Split v bound i m
    → Split v bound (suc i) (receive v polls m)
unfolding receive
receive-Split v bound i polls m b h s =
    let P : Menu → Type 0 = Split v bound (suc i) in
    let failed = show_error-Split v bound i m h s in
    if_both P (is_positive m.mmi_session) _ _
      (λ p.
        if_both P m.already_received _ _ (λ a. show_text-Split v bound (suc i) m.buf m b)
          (λ a.
            option_both P (first_text polls) _ _ (λ q. failed)
              (λ t q. show_text-Split v bound (suc i) t m b)))
      (λ p. failed)

Split-later : (v : Vdr) (bound i : ℕ) (m : Menu) → Split v bound i m → Split v bound (suc i) m
Split-later v bound i m (xs, e, eq, l, ei, eb) = (xs, e, eq, l, omega (arith, ei), eb)

-- An answer is an item of the text.
answer-lt :
    (v : Vdr) (bound i d : ℕ) (m : Menu) (it : MenuItem)
    → d < 10
    → starts_digit v.labels.error ≡ false
    → Split v bound i m
    → get_elem? m.items i ≡ some it
    → is_answer d (item_text v.labels it) ≡ true
    → i < bound
unfolding item_text
answer-lt v bound i d m it h q (xs, e, eq, l, ei, eb) g a = elim (Bool-cases (ltb i (length xs))) [
  | inl p ↦ omega (tests, p, l)
  | inr p ↦
      let r : MenuItem = text_item v.labels.error in
      let is_error =
        get_elem?-copies xs r it e i (ground (arith, p))
          (subst (λ ys. get_elem? ys i ≡ some it) eq g) in
      let no_answer = not_answer d v.labels.error h q in
      absurd (cc (subst (λ x. is_answer d (item_text v.labels x) ≡ true) is_error a, no_answer))
]

length-Split : (v : Vdr) (bound i : ℕ) (m : Menu) → Split v bound i m → length m.items ≤ 2 * bound
length-Split v bound i m (xs, e, eq, l, ei, eb) =
    let r : MenuItem = text_item v.labels.error in
    omega (arith, ap length eq, length-append xs (replicate e r), length-replicate e r, l, eb)

digit_loop-ends :
    (v : Vdr) (k : KeyPress) (d bound fuel i n : ℕ) (m : Menu)
    → d < 10
    → starts_digit v.labels.error ≡ false
    → Bounds v bound
    → Split v bound i m
    → i ≤ 2 * bound
    → 2 * bound < fuel + i
    → (m' : Menu) × (digit_loop v k d fuel i n m ≡ some m')
unfolding digit_loop
digit_loop-ends v k d bound zero i n m h q b s j f = absurd (omega (arith, j, f))
digit_loop-ends v k d bound (suc fuel) i n m h q b s j f =
    elim (Option-cases (get_elem? m.items i)) [
      | inl e ↦ rw (e, digit_loop) (m, refl)
      | inr (it, e) ↦ elim (Bool-cases (is_answer d (item_text v.labels it))) [
        | inl a ↦
            rw (e, a, digit_loop)
              (digit_loop-ends v k d bound fuel (suc i) (suc n)
                (receive v (k.polls n) (send (item_text v.labels it) m)) h q b
                (receive-Split v bound i (k.polls n) (send (item_text v.labels it) m) b
                  (answer-lt v bound i d m it h q s e a) s)
                (omega (arith, get_elem?-lt m.items i it e, length-Split v bound i m s))
                (omega (arith, f)))
        | inr a ↦
            rw (e, a, digit_loop)
              (digit_loop-ends v k d bound fuel (suc i) n m h q b (Split-later v bound i m s)
                (omega (arith, get_elem?-lt m.items i it e, length-Split v bound i m s))
                (omega (arith, f)))
      ]
    ]

-- A digit key where no input is requested: if no text is longer than the array that it is converted
-- into, and the line for an error does not begin with a digit, the loop over the items ends, whatever
-- texts come in it.
pub press_digit-IsDone :
    (v : Vdr) (k : KeyPress) (d : ℕ) (m : Menu)
    → d < 10
    → starts_digit v.labels.error ≡ false
    → ((text : List ℕ) → length (v.conv text) ≤ v.text_length)
    → is_requested m.input_requested ≡ false
    → (m' : Menu) × (press_digit v k d m ≡ some m')
unfolding press_digit
press_digit-IsDone v k d m h q b r =
    let bound : ℕ = length m.items + v.text_length in
    rw r (
      digit_loop-ends v k d bound (2 * bound + 1) 0 0 (record m { pin_counter = 0 }) h q
        (λ text.
          omega
            (arith, b text, length-map (lines (v.conv text)) text_item, length-lines (v.conv text)))
        (m.items, 0, sym (append-nil m.items), omega arith, omega arith, omega arith) (omega arith)
        (omega arith))
