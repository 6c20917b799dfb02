-- ===== src/CamMenu/Menu/Shown.antt =====
-- What Receive of cam_menu.c makes of a text of a CAM.
use vdr_plugin_mcli.Prelude.{
  ℕ, suc, ◌≡◌, ◌≢◌, refl, ap, ◌∙◌, ◌⊎◌, inl, inr, true, false, Bool-cases, Option, some, List, [],
  ◌∷◌, ◌++◌, map, drop, All, if◌then◌else◌, same_text, same_text-eq,
}
use vdr_plugin_mcli.Prelude.Int.{pos}
use vdr_plugin_mcli.CamMenu.Find.{text_item}
use vdr_plugin_mcli.CamMenu.Lines.{lines}
use vdr_plugin_mcli.CamMenu.Lines.Join.{IsPart, unlines, filled, lines-parts}
use vdr_plugin_mcli.CamMenu.Menu.{
  Menu, Vdr, is_positive, is_requested, first_text, request, show_text, receive,
}

-- The text that Receive handles: one that was received before, or the first that comes.
abbrev pub Gets : Menu → List (Option (List ℕ)) → List ℕ → Type 0
Gets m polls text =
    ((m.already_received ≡ true) × (m.buf ≡ text))
    ⊎ ((m.already_received ≡ false) × (first_text polls ≡ some text))

-- "end"
abbrev pub end_text : List ℕ
end_text = b'e' ∷ b'n' ∷ b'd' ∷ []

-- The text without the head that a request for input has.
abbrev pub body : Menu → List ℕ → List ℕ
body m text = if is_requested (request text m.input_requested) then drop 28 text else text

receive-Gets :
    (v : Vdr) (polls : List (Option (List ℕ))) (m : Menu) (text : List ℕ) (n : ℕ)
    → m.mmi_session ≡ pos (suc n)
    → Gets m polls text
    → receive v polls m ≡ show_text v text m
unfolding receive
receive-Gets v polls m text n s (inl (again, e)) =
    rw (ap is_positive s, again) (ap (λ t. show_text v t m) e)
receive-Gets v polls m text n s (inr (fresh, e)) = rw (ap is_positive s, fresh, e) refl

show_text-items :
    (v : Vdr) (m : Menu) (text : List ℕ) (parts : List (List ℕ)) (last : List ℕ)
    → text ≢ end_text
    → All IsPart parts
    → IsPart last
    → v.conv (body m text) ≡ unlines parts ++ last
    → (show_text v text m).items ≡ map text_item (filled (parts ++ last ∷ []))
unfolding show_text
show_text-items v m text parts last ne h l e = elim (Bool-cases (same_text text end_text)) [
  | inl same ↦ absurd (ne (same_text-eq text end_text same))
  | inr other ↦
      rw other
        (ap (λ t. map text_item (lines t)) e ∙ ap (map text_item) (lines-parts parts last h l))
]

-- Receive in an open session, with a text that is not "end", whether it came before or comes now:
-- the menu shows one item for each part of the converted text between the ends of lines that is not
-- empty, the part behind the last end included, in their order, and nothing of what it showed
-- before; of a text that asks for input, or comes while input is requested, the first 28 characters
-- are left out.
pub receive-items :
    (v : Vdr) (polls : List (Option (List ℕ))) (m : Menu) (text : List ℕ) (n : ℕ)
    (parts : List (List ℕ)) (last : List ℕ)
    → m.mmi_session ≡ pos (suc n)
    → Gets m polls text
    → text ≢ end_text
    → All IsPart parts
    → IsPart last
    → v.conv (body m text) ≡ unlines parts ++ last
    → (receive v polls m).items ≡ map text_item (filled (parts ++ last ∷ []))
receive-items v polls m text n parts last s got ne h l e =
    ap (λ (x : Menu). x.items) (receive-Gets v polls m text n s got)
    ∙ show_text-items v m text parts last ne h l e
