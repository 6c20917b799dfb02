-- ===== src/Mcli/Service/Conf.antt =====
-- The text of the SVDRP command GETTC in mcli.c: the lines of /etc/default/mcli that it reads, and those
-- that it answers. Texts are lists of characters; atoi and the format %d are arguments.
pub mod Written
pub mod Last
use vdr_plugin_mcli.Prelude.{
  ℕ, ◌&&◌, ◌||◌, ◌==◌, not, Bool, true, false, Option, none, some, List, [], ◌∷◌, ◌++◌, drop,
  if◌then◌else◌,
}
use vdr_plugin_mcli.Prelude.Int.{ℤ, pos}
use vdr_plugin_mcli.Mcli.Tuners.{FeTypes}
use vdr_plugin_mcli.Mcli.Service.{MenuNetceiver, NrTuners, gettc}

-- Whether a text begins with `p`.
unfoldable pub starts : (p text : List ℕ) → Bool
starts [] text = true
starts (x ∷ p) [] = false
starts (x ∷ p) (y ∷ text) = x == y && starts p text

-- strstr, as a test.
unfoldable pub strstr : (p text : List ℕ) → Bool
unfolding starts
strstr p [] = starts p []
strstr p (y ∷ text) = starts p (y ∷ text) || strstr p text

-- "DVB_" type "_DEVICES=", where the type is C, S, S2 or T.
abbrev pub name_of : List ℕ → List ℕ
name_of kind = 68 ∷ 86 ∷ 66 ∷ 95 ∷ (kind ++ 95 ∷ 68 ∷ 69 ∷ 86 ∷ 73 ∷ 67 ∷ 69 ∷ 83 ∷ 61 ∷ [])

abbrev pub quote : ℕ
quote = 34

-- The number of a setting behind a line; `start` is where the line has the number.
unfoldable pub read_setting : (List ℕ → ℤ) → (kind : List ℕ) → (start : ℕ) → List ℕ → ℤ → ℤ
unfolding strstr
read_setting atoi kind start buffer old =
    if strstr (name_of kind ++ quote ∷ []) buffer && not (strstr (quote ∷ quote ∷ []) buffer)
    then atoi (drop start buffer)
    else old

-- The body of the loop over the lines.
unfoldable pub read_line : (List ℕ → ℤ) → List ℕ → NrTuners → NrTuners
unfolding read_setting
read_line atoi buffer n = record {
  cable = read_setting atoi (67 ∷ []) 15 buffer n.cable;
  sat = read_setting atoi (83 ∷ []) 15 buffer n.sat;
  sat_s2 = read_setting atoi (83 ∷ 50 ∷ []) 16 buffer n.sat_s2;
  terr = read_setting atoi (84 ∷ []) 15 buffer n.terr;
}

unfoldable pub read_lines : (List ℕ → ℤ) → List (List ℕ) → NrTuners → NrTuners
unfolding read_line
read_lines atoi [] n = n
read_lines atoi (buffer ∷ rest) n = read_lines atoi rest (read_line atoi buffer n)

abbrev pub unlimited : NrTuners
unlimited = record { sat = pos 9999; sat_s2 = pos 9999; cable = pos 9999; terr = pos 9999 }

-- The numbers of the file, or of none.
unfoldable pub read_conf : (List ℕ → ℤ) → Option (List (List ℕ)) → NrTuners
unfolding read_lines
read_conf atoi none = unlimited
read_conf atoi (some file) = read_lines atoi file unlimited

-- A line of the answer; `dec` is the format %d.
abbrev pub reply_line : (ℤ → List ℕ) → (kind : List ℕ) → ℤ → List ℕ
reply_line dec kind n = name_of kind ++ dec n ++ 10 ∷ []

-- The answer.
unfoldable pub reply : (ℤ → List ℕ) → NrTuners → List ℕ
reply dec n =
    reply_line dec (67 ∷ []) n.cable
    ++ reply_line dec (83 ∷ []) n.sat
    ++ reply_line dec (83 ∷ 50 ∷ []) n.sat_s2
    ++ reply_line dec (84 ∷ []) n.terr

-- GETTC: the code of the reply and its text.
unfoldable pub svdrp_gettc :
    (atoi : List ℕ → ℤ) (dec : ℤ → List ℕ)
    → FeTypes
    → Option (List (List ℕ))
    → (now : ℕ) → List MenuNetceiver
    → ℕ × List ℕ
unfolding read_conf gettc reply
svdrp_gettc atoi dec fe file now ns = (215, reply dec (gettc fe (read_conf atoi file) now ns))
