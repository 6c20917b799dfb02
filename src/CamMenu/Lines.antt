-- ===== src/CamMenu/Lines.antt =====
-- The lines of a text: the calls of strtok_r with "\n" in cam_menu.c, which pass over empty lines.
pub mod Join
use vdr_plugin_mcli.Prelude.{ℕ, ◌==◌, List, [], ◌∷◌, ◌++◌, if◌then◌else◌}

-- A line that has ended, unless it is empty.
abbrev pub end_line : List ℕ → List (List ℕ) → List (List ℕ)
end_line [] rest = rest
end_line (x ∷ line) rest = (x ∷ line) ∷ rest

-- The lines of a text, behind the start of a line that was read already.
pub lines_from : (line : List ℕ) → List ℕ → List (List ℕ)
lines_from line [] = end_line line []
lines_from line (c ∷ text) =
    let after = lines_from [] text in
    let within = lines_from (line ++ c ∷ []) text in
    if c == b'\n' then end_line line after else within

unfoldable pub lines : List ℕ → List (List ℕ)
unfolding lines_from
lines text = lines_from [] text
