-- ===== src/Mcli/Service/Conf/Written.antt =====
-- The lines of /etc/default/mcli as they are meant to be written, and what the command GETTC (mcli.c)
-- makes of each.
use vdr_plugin_mcli.Prelude.{
  ℕ, ◌≡◌, refl, ◌||◌, ◌==◌, Bool, true, false, List, [], ◌∷◌, ◌++◌, arith, All, length,
  if◌then◌else◌, drop, ap, Bool-cases, inl, inr,
}
use vdr_plugin_mcli.Prelude.Int.{ℤ}
use vdr_plugin_mcli.Mcli.Service.{NrTuners}
use vdr_plugin_mcli.Mcli.Service.Conf.{starts, strstr, name_of, quote, read_setting, read_line}

pub data DvbType : Type 0 where
  dvb_c : DvbType
  dvb_s : DvbType
  dvb_s2 : DvbType
  dvb_t : DvbType

abbrev pub kind_of : DvbType → List ℕ
kind_of dvb_c = 67 ∷ []
kind_of dvb_s = 83 ∷ []
kind_of dvb_s2 = 83 ∷ 50 ∷ []
kind_of dvb_t = 84 ∷ []

abbrev pub number_of : DvbType → NrTuners → ℤ
number_of dvb_c n = n.cable
number_of dvb_s n = n.sat
number_of dvb_s2 n = n.sat_s2
number_of dvb_t n = n.terr

abbrev pub same_type : DvbType → DvbType → Bool
same_type dvb_c dvb_c = true
same_type dvb_s dvb_s = true
same_type dvb_s2 dvb_s2 = true
same_type dvb_t dvb_t = true
same_type _ _ = false

-- A line of the file: NAME="value", NAME="", or a text without a name.
pub data Entry : Type 0 where
  value_entry : DvbType → List ℕ → Entry
  empty_entry : DvbType → Entry
  other_entry : List ℕ → Entry

abbrev pub line_of : Entry → List ℕ
line_of (value_entry t v) = name_of (kind_of t) ++ quote ∷ (v ++ quote ∷ [])
line_of (empty_entry t) = name_of (kind_of t) ++ quote ∷ quote ∷ []
line_of (other_entry text) = text

-- Neither a quote nor the first letter of a name.
abbrev pub Plain : List ℕ → Type 0
Plain v = All (λ x. ((x == quote) || (x == 68)) ≡ false) v

-- A value is not empty, and has neither quotes nor a D.
abbrev pub IsWritten : Entry → Type 0
IsWritten (value_entry t v) = (length v == 0 ≡ false) × Plain v
IsWritten (empty_entry t) = Unit
IsWritten (other_entry text) =
    (t : DvbType) → strstr (name_of (kind_of t) ++ quote ∷ []) text ≡ false

strstr-head : (p v : List ℕ) → Plain v → strstr (68 ∷ p) (v ++ quote ∷ []) ≡ false
unfolding strstr starts
strstr-head p [] h = refl
strstr-head p (x ∷ v) (e, h) = ground (arith, e, strstr-head p v h)

strstr-name :
    (t : DvbType) (v : List ℕ)
    → Plain v
    → strstr (name_of (kind_of t) ++ quote ∷ []) (v ++ quote ∷ []) ≡ false
strstr-name t v h = strstr-head (drop 1 (name_of (kind_of t) ++ quote ∷ [])) v h

-- No two quotes follow one another.
strstr-one_quote : (v : List ℕ) → Plain v → strstr (quote ∷ quote ∷ []) (v ++ quote ∷ []) ≡ false
unfolding strstr starts
strstr-one_quote [] h = refl
strstr-one_quote (x ∷ v) (e, h) = ground (arith, e, strstr-one_quote v h)

strstr-quotes :
    (v : List ℕ)
    → length v == 0 ≡ false
    → Plain v
    → strstr (quote ∷ quote ∷ []) (quote ∷ (v ++ quote ∷ [])) ≡ false
unfolding strstr starts
strstr-quotes [] e h = grind (arith, e)
strstr-quotes (x ∷ v) e (f, h) = ground (arith, f, strstr-one_quote v h)

-- The line of a value is that of its type, and has no empty value.
strstr-line :
    (t u : DvbType) (v : List ℕ)
    → Plain v
    → strstr (name_of (kind_of t) ++ quote ∷ []) (line_of (value_entry u v)) ≡ same_type u t
unfolding strstr starts
strstr-line dvb_c dvb_c v h = refl
strstr-line dvb_c dvb_s v h = strstr-name dvb_c v h
strstr-line dvb_c dvb_s2 v h = strstr-name dvb_c v h
strstr-line dvb_c dvb_t v h = strstr-name dvb_c v h
strstr-line dvb_s dvb_c v h = strstr-name dvb_s v h
strstr-line dvb_s dvb_s v h = refl
strstr-line dvb_s dvb_s2 v h = strstr-name dvb_s v h
strstr-line dvb_s dvb_t v h = strstr-name dvb_s v h
strstr-line dvb_s2 dvb_c v h = strstr-name dvb_s2 v h
strstr-line dvb_s2 dvb_s v h = strstr-name dvb_s2 v h
strstr-line dvb_s2 dvb_s2 v h = refl
strstr-line dvb_s2 dvb_t v h = strstr-name dvb_s2 v h
strstr-line dvb_t dvb_c v h = strstr-name dvb_t v h
strstr-line dvb_t dvb_s v h = strstr-name dvb_t v h
strstr-line dvb_t dvb_s2 v h = strstr-name dvb_t v h
strstr-line dvb_t dvb_t v h = refl

-- No empty value in the line of one that is not.
value-quotes :
    (u : DvbType) (v : List ℕ)
    → length v == 0 ≡ false
    → Plain v
    → strstr (quote ∷ quote ∷ []) (line_of (value_entry u v)) ≡ false
unfolding strstr starts
value-quotes dvb_c v e h = strstr-quotes v e h
value-quotes dvb_s v e h = strstr-quotes v e h
value-quotes dvb_s2 v e h = strstr-quotes v e h
value-quotes dvb_t v e h = strstr-quotes v e h

-- Where the line of a type has its number.
abbrev pub start_of : DvbType → ℕ
start_of dvb_s2 = 16
start_of _ = 15

pub number-read_line :
    (atoi : List ℕ → ℤ) (t : DvbType) (buffer : List ℕ) (n : NrTuners)
    → number_of t (read_line atoi buffer n)
      ≡ read_setting atoi (kind_of t) (start_of t) buffer (number_of t n)
unfolding read_line
number-read_line atoi dvb_c buffer n = refl
number-read_line atoi dvb_s buffer n = refl
number-read_line atoi dvb_s2 buffer n = refl
number-read_line atoi dvb_t buffer n = refl

-- The number stands behind the name.
drop-line :
    (t u : DvbType) (v : List ℕ)
    → same_type u t ≡ true
    → drop (start_of t) (line_of (value_entry u v)) ≡ v ++ quote ∷ []
drop-line dvb_c dvb_c v e = refl
drop-line dvb_s dvb_s v e = refl
drop-line dvb_s2 dvb_s2 v e = refl
drop-line dvb_t dvb_t v e = refl
drop-line dvb_c dvb_s v e = grind (arith, e)
drop-line dvb_c dvb_s2 v e = grind (arith, e)
drop-line dvb_c dvb_t v e = grind (arith, e)
drop-line dvb_s dvb_c v e = grind (arith, e)
drop-line dvb_s dvb_s2 v e = grind (arith, e)
drop-line dvb_s dvb_t v e = grind (arith, e)
drop-line dvb_s2 dvb_c v e = grind (arith, e)
drop-line dvb_s2 dvb_s v e = grind (arith, e)
drop-line dvb_s2 dvb_t v e = grind (arith, e)
drop-line dvb_t dvb_c v e = grind (arith, e)
drop-line dvb_t dvb_s v e = grind (arith, e)
drop-line dvb_t dvb_s2 v e = grind (arith, e)

pub read_setting-value :
    (atoi : List ℕ → ℤ) (t u : DvbType) (v : List ℕ) (old : ℤ)
    → length v == 0 ≡ false
    → Plain v
    → read_setting atoi (kind_of t) (start_of t) (line_of (value_entry u v)) old
      ≡ (if same_type u t then atoi (v ++ quote ∷ []) else old)
unfolding read_setting
read_setting-value atoi t u v old e h =
    rw (strstr-line t u v h, value-quotes u v e h)
      (elim (Bool-cases (same_type u t)) [
        | inl s ↦ rw s (ap atoi (drop-line t u v s))
        | inr s ↦ rw s refl
      ])

empty-quotes : (u : DvbType) → strstr (quote ∷ quote ∷ []) (line_of (empty_entry u)) ≡ true
unfolding strstr starts
empty-quotes dvb_c = refl
empty-quotes dvb_s = refl
empty-quotes dvb_s2 = refl
empty-quotes dvb_t = refl

-- A line with an empty value changes nothing.
pub read_setting-empty :
    (atoi : List ℕ → ℤ) (t u : DvbType) (old : ℤ)
    → read_setting atoi (kind_of t) (start_of t) (line_of (empty_entry u)) old ≡ old
unfolding read_setting
read_setting-empty atoi t u old = ground (arith, empty-quotes u)

pub read_setting-other :
    (atoi : List ℕ → ℤ) (t : DvbType) (text : List ℕ) (old : ℤ)
    → strstr (name_of (kind_of t) ++ quote ∷ []) text ≡ false
    → read_setting atoi (kind_of t) (start_of t) text old ≡ old
unfolding read_setting
read_setting-other atoi t text old e = rw e refl
