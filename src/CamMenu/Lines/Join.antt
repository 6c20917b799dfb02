-- ===== src/CamMenu/Lines/Join.antt =====
-- The cutting of a text into lines in cam_menu.c: what the lines are, and that they are no more than the
-- characters.
use vdr_plugin_mcli.Prelude.{
  ℕ, ◌≡◌, ◌≢◌, refl, sym, ap, ◌∙◌, List, [], ◌∷◌, ◌++◌, arith, All, length, ◌+◌, ◌≤◌, append-nil,
  append_assoc,
}
use vdr_plugin_mcli.CamMenu.Lines.{end_line, lines_from, lines}

-- A part of a text that has no end of a line in it.
abbrev pub IsPart : List ℕ → Type 0
IsPart part = All (λ c. c ≢ b'\n') part

-- Parts of a text, each with the end of its line.
abbrev pub unlines : List (List ℕ) → List ℕ
unlines [] = []
unlines (part ∷ more) = part ++ b'\n' ∷ unlines more

-- The parts that are not empty.
abbrev pub filled : List (List ℕ) → List (List ℕ)
filled [] = []
filled ([] ∷ parts) = filled parts
filled ((c ∷ part) ∷ parts) = (c ∷ part) ∷ filled parts

end_line-filled :
    (part : List ℕ) (parts : List (List ℕ)) → end_line part (filled parts) ≡ filled (part ∷ parts)
end_line-filled [] parts = refl
end_line-filled (c ∷ part) parts = refl

lines_from-line :
    (start line text : List ℕ)
    → All (λ c. c ≢ b'\n') line
    → lines_from start (line ++ b'\n' ∷ text) ≡ end_line (start ++ line) (lines_from [] text)
unfolding lines_from
lines_from-line start [] text h = ap (λ l. end_line l (lines_from [] text)) (sym (append-nil start))
lines_from-line start (c ∷ line) text h =
    ground (arith, h.0)
    ∙ lines_from-line (start ++ c ∷ []) line text h.1
    ∙ ap (λ l. end_line l (lines_from [] text)) (append_assoc start (c ∷ []) line)

lines_from-last :
    (start last : List ℕ) → IsPart last → lines_from start last ≡ end_line (start ++ last) []
unfolding lines_from
lines_from-last start [] h = ap (λ l. end_line l []) (sym (append-nil start))
lines_from-last start (c ∷ last) h =
    ground (arith, h.0)
    ∙ lines_from-last (start ++ c ∷ []) last h.1
    ∙ ap (λ l. end_line l []) (append_assoc start (c ∷ []) last)

-- The lines of a text are its parts between the ends of lines, the last one included, without the empty
-- ones.
pub lines-parts :
    (parts : List (List ℕ)) (last : List ℕ)
    → All IsPart parts
    → IsPart last
    → lines (unlines parts ++ last) ≡ filled (parts ++ last ∷ [])
unfolding lines
lines-parts [] last h l = lines_from-last [] last l ∙ end_line-filled last []
lines-parts (part ∷ parts) last h l =
    ap (lines_from []) (append_assoc part (b'\n' ∷ unlines parts) last)
    ∙ lines_from-line [] part (unlines parts ++ last) h.0
    ∙ ap (end_line part) (lines-parts parts last h.1 l)
    ∙ end_line-filled part (parts ++ last ∷ [])

length-end_line :
    (line : List ℕ) (rest : List (List ℕ))
    → length (end_line line rest) ≡ length (end_line line []) + length rest
length-end_line [] rest = omega arith
length-end_line (x ∷ line) rest = omega arith

one_line : (line : List ℕ) → length (end_line line []) ≤ 1
one_line [] = omega arith
one_line (x ∷ line) = omega arith

length-lines_from :
    (line text : List ℕ) → length (lines_from line text) ≤ length (end_line line []) + length text
unfolding lines_from
length-lines_from line [] = omega arith
length-lines_from line (c ∷ text) = ground (
  arith,
  length-end_line line (lines_from [] text),
  length-lines_from [] text,
  length-lines_from (line ++ c ∷ []) text,
  one_line (line ++ c ∷ []),
)

pub length-lines : (text : List ℕ) → length (lines text) ≤ length text
unfolding lines
length-lines text = omega (arith, length-lines_from [] text)
