-- ===== src/Mcli/Service/Conf/Last.antt =====
-- What the command GETTC (mcli.c) makes of a configuration file that is written as intended.
use vdr_plugin_mcli.Prelude.{
  ℕ, ◌≡◌, refl, some, List, [], ◌∷◌, ◌++◌, All, if◌then◌else◌, map, ap, ◌∙◌,
}
use vdr_plugin_mcli.Prelude.Int.{ℤ, pos}
use vdr_plugin_mcli.Mcli.Service.{NrTuners}
use vdr_plugin_mcli.Mcli.Service.Conf.{quote, read_line, read_lines, unlimited, read_conf}
use vdr_plugin_mcli.Mcli.Service.Conf.Written.{
  DvbType, dvb_c, dvb_s, dvb_s2, dvb_t, number_of, same_type, Entry, value_entry, empty_entry,
  other_entry, line_of, IsWritten, number-read_line, read_setting-value, read_setting-empty,
  read_setting-other,
}

-- The number of a type behind the entries: that of its last value.
abbrev pub last_value : (List ℕ → ℤ) → DvbType → List Entry → ℤ → ℤ
last_value atoi t [] old = old
last_value atoi t (value_entry u v ∷ es) old =
    last_value atoi t es (if same_type u t then atoi (v ++ quote ∷ []) else old)
last_value atoi t (empty_entry u ∷ es) old = last_value atoi t es old
last_value atoi t (other_entry text ∷ es) old = last_value atoi t es old

read_lines-last :
    (atoi : List ℕ → ℤ) (t : DvbType) (es : List Entry) (n : NrTuners)
    → All IsWritten es
    → number_of t (read_lines atoi (map line_of es) n) ≡ last_value atoi t es (number_of t n)
unfolding read_lines
read_lines-last atoi t [] n h = refl
read_lines-last atoi t (value_entry u v ∷ es) n ((e, p), h) =
    read_lines-last atoi t es (read_line atoi (line_of (value_entry u v)) n) h
    ∙ ap (last_value atoi t es) (
        number-read_line atoi t (line_of (value_entry u v)) n
        ∙ read_setting-value atoi t u v (number_of t n) e p)
read_lines-last atoi t (empty_entry u ∷ es) n (e, h) =
    read_lines-last atoi t es (read_line atoi (line_of (empty_entry u)) n) h
    ∙ ap (last_value atoi t es) (
        number-read_line atoi t (line_of (empty_entry u)) n
        ∙ read_setting-empty atoi t u (number_of t n))
read_lines-last atoi t (other_entry text ∷ es) n (e, h) =
    read_lines-last atoi t es (read_line atoi text n) h
    ∙ ap (last_value atoi t es)
        (number-read_line atoi t text n ∙ read_setting-other atoi t text (number_of t n) (e t))

-- For every file of lines NAME="value", lines NAME="" and lines without a name, in which a value is not
-- empty and has neither quotes nor a D: the number of a type is what atoi makes of its last value, with
-- the quote behind it, and 9999 where it has none.
pub read_conf-last :
    (atoi : List ℕ → ℤ) (t : DvbType) (es : List Entry)
    → All IsWritten es
    → number_of t (read_conf atoi (some (map line_of es))) ≡ last_value atoi t es (pos 9999)
unfolding read_conf
read_conf-last atoi dvb_c es h = read_lines-last atoi dvb_c es unlimited h
read_conf-last atoi dvb_s es h = read_lines-last atoi dvb_s es unlimited h
read_conf-last atoi dvb_s2 es h = read_lines-last atoi dvb_s2 es unlimited h
read_conf-last atoi dvb_t es h = read_lines-last atoi dvb_t es unlimited h
