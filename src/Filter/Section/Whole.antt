-- ===== src/Filter/Section/Whole.antt =====
-- A section that is cut into chunks comes out of cMcliFilter (filter.c) whole.
use mathlib.Core.List.{flatten}
use vdr_plugin_mcli.Prelude.{
  ℕ, ◌≡◌, refl, ap, ap₂, sym, subst, ◌∙◌, ◌≢◌, List, [], ◌∷◌, ◌++◌, Bool, none, true, false, ◌&&◌,
  length, arith,
}
use vdr_plugin_mcli.Prelude.{append_assoc, append-nil}
use vdr_plugin_mcli.Filter.Section.{McliFilter, WriteResult, Put, put_section}
use vdr_plugin_mcli.Filter.Section.Assembly.{
  Holds, copied, copied-Holds, append_partial, append_last, put_section-append, put_section_afresh,
  part_short, put_rest, put_chunks, to_list, accepts, closed_by, IsSection,
}

and_true : (b : Bool) → (b && true) ≡ b
and_true true = refl
and_true false = refl

-- A filter that has gathered something is busy.
empty_of : (f : McliFilter) (gathered : List ℕ) → Holds f gathered → f.used ≡ 0 → gathered ≡ []
empty_of f [] h z = refl
empty_of f (x ∷ gathered) h z = absurd (omega (arith, h.0))

append_nonempty : (xs ys : List ℕ) → xs ≢ [] → xs ++ ys ≢ []
append_nonempty [] ys ne = absurd (ne refl)
append_nonempty (x ∷ xs) ys ne = λ e. cc

flatten_nonempty : (cs : List (List ℕ)) (last : List ℕ) → last ≢ [] → flatten (cs ++ last ∷ []) ≢ []
unfolding flatten
flatten_nonempty [] last ne = append_nonempty last [] ne
flatten_nonempty ([] ∷ cs) last ne = flatten_nonempty cs last ne
flatten_nonempty ((x ∷ c) ∷ cs) last ne = λ e. cc

module _ (ts_size : ℕ) (outcomes : ℕ → WriteResult) where
  -- What goes before the results of the chunks behind.
  abbrev behind : Put → Bool × List (List ℕ) × McliFilter → Bool × List (List ℕ) × McliFilter
  behind r rest = (r.ok && rest.0, to_list ts_size r.written ++ rest.1, rest.2)

  -- A chunk that writes nothing hands over to the next.
  quiet :
      (r : Put) (cs : List (List ℕ)) (g : McliFilter)
      → r.ok ≡ true
      → r.written ≡ none
      → r.filter ≡ g
      → behind r (put_rest ts_size outcomes cs r.filter) ≡ put_rest ts_size outcomes cs g
  quiet r cs g ok w e =
      ap₂
        (λ b o. (
          b && (put_rest ts_size outcomes cs r.filter).0,
          to_list ts_size o ++ (put_rest ts_size outcomes cs r.filter).1,
          (put_rest ts_size outcomes cs r.filter).2,
        ))
        ok w
      ∙ ap (put_rest ts_size outcomes cs) e

  put_rest-cons :
      (c : List ℕ) (cs : List (List ℕ)) (f : McliFilter)
      → let r = put_section ts_size (outcomes (length cs)) c false f in
        put_rest ts_size outcomes (c ∷ cs) f ≡ behind r (put_rest ts_size outcomes cs r.filter)
  unfolding put_rest
  put_rest-cons c cs f = refl

  put_rest-one :
      (c : List ℕ) (f : McliFilter)
      → let r = put_section ts_size (outcomes 0) c false f in
        put_rest ts_size outcomes (c ∷ []) f
        ≡ (r.ok && true, to_list ts_size r.written ++ [], r.filter)
  unfolding put_rest
  put_rest-one c f = refl

  put_chunks-cons :
      (c : List ℕ) (cs : List (List ℕ)) (f : McliFilter)
      → let r = put_section ts_size (outcomes (length cs)) c true f in
        put_chunks ts_size outcomes c cs f ≡ behind r (put_rest ts_size outcomes cs r.filter)
  unfolding put_chunks
  put_chunks-cons c cs f = refl

  -- One write, of all the bytes, and what is left of the filter, which was closed before or not.
  abbrev Comes : Bool → List ℕ → Bool × List (List ℕ) × McliFilter → Type 0
  Comes closed bytes out =
      (out.0 ≡ accepts (outcomes 0))
      × (out.1 ≡ bytes ∷ [])
      × (out.2.used ≡ 0)
      × (out.2.closed ≡ closed_by (outcomes 0) closed)

  rest_whole :
      (cs : List (List ℕ)) (last gathered : List ℕ) (f : McliFilter)
      → Holds f gathered
      → gathered ≢ []
      → last ≢ []
      → IsSection ts_size (gathered ++ flatten (cs ++ last ∷ []))
      → Comes f.closed
          (gathered ++ flatten (cs ++ last ∷ []))
          (put_rest ts_size outcomes (cs ++ last ∷ []) f)
  unfolding flatten
  rest_whole [] last gathered f h some_in some_left s =
      let e : gathered ++ (last ++ []) ≡ gathered ++ last = ap (◌++◌ gathered) (append-nil last) in
      let (long, fits, whole) = subst (IsSection ts_size) e s in
      let busy : f.used ≢ 0 = λ (z : f.used ≡ 0). some_in (empty_of f gathered h z) in
      let (ok, written, used, shut) =
        append_last ts_size (outcomes 0) f gathered last h fits long whole in
      let same = put_section-append ts_size (outcomes 0) last f busy in
      subst (λ bytes. Comes f.closed bytes (put_rest ts_size outcomes (last ∷ []) f)) (sym e)
        (subst (Comes f.closed (gathered ++ last)) (sym (put_rest-one last f)) (
          ap (λ (r : Put). r.ok && true) same ∙ ap (λ b. b && true) ok ∙ and_true _,
          ap (λ (r : Put). to_list ts_size r.written ++ []) same
              ∙ ap (λ o. to_list ts_size o ++ []) written,
          ap (λ (r : Put). r.filter.used) same ∙ used,
          ap (λ (r : Put). r.filter.closed) same ∙ shut,
        ))
  rest_whole (c ∷ cs) last gathered f h some_in some_left s =
      let outcome : WriteResult = outcomes (length (cs ++ last ∷ [])) in
      let e : gathered ++ (c ++ flatten (cs ++ last ∷ []))
          ≡ (gathered ++ c) ++ flatten (cs ++ last ∷ []) =
        sym (append_assoc gathered c (flatten (cs ++ last ∷ []))) in
      let s' = subst (IsSection ts_size) e s in
      let busy : f.used ≢ 0 = λ (z : f.used ≡ 0). some_in (empty_of f gathered h z) in
      let (fits, short) =
        part_short ts_size (gathered ++ c) (flatten (cs ++ last ∷ [])) s'
          (flatten_nonempty cs last some_left) in
      let (ok, written, after) = append_partial ts_size outcome f gathered c h fits short in
      let same = put_section-append ts_size outcome c f busy in
      let step =
        put_rest-cons c (cs ++ last ∷ []) f
        ∙ quiet (put_section ts_size outcome c false f) (cs ++ last ∷ []) (copied c f)
            (ap (λ (r : Put). r.ok) same ∙ ok) (ap (λ (r : Put). r.written) same ∙ written)
            (ap (λ (r : Put). r.filter) same ∙ after) in
      subst (λ bytes. Comes f.closed bytes (put_rest ts_size outcomes (c ∷ cs ++ last ∷ []) f))
        (sym e)
        (subst (Comes f.closed _) (sym step) (
          rest_whole cs last (gathered ++ c) (copied c f) (copied-Holds f gathered c h)
            (append_nonempty gathered c some_in) some_left s'))

  -- Whatever the filter has gathered, a section of four bytes or more, and fewer than m_Buffer
  -- takes, that arrives in two or more chunks, the first with Pusi set, the first and the last not
  -- empty, is handed to write() once and whole, by the time of its last chunk. The filter has then
  -- nothing gathered, whatever the write comes to, so a section for which the socket is full is
  -- lost. PutSection returned true each time and m_closed is as it was, unless the write failed:
  -- then it returned false for a chunk, and m_closed is set.
  pub section_comes_whole :
      (first last : List ℕ) (cs : List (List ℕ)) (f : McliFilter)
      → first ≢ []
      → last ≢ []
      → IsSection ts_size (first ++ flatten (cs ++ last ∷ []))
      → let (ok, written, f') = put_chunks ts_size outcomes first (cs ++ last ∷ []) f in
        (ok ≡ accepts (outcomes 0))
        × (written ≡ (first ++ flatten (cs ++ last ∷ [])) ∷ [])
        × (f'.used ≡ 0)
        × (f'.closed ≡ closed_by (outcomes 0) f.closed)
  section_comes_whole first last cs f some_first some_last s =
      let outcome : WriteResult = outcomes (length (cs ++ last ∷ [])) in
      let (g, empty, closed, start) = put_section_afresh ts_size outcome first f in
      let (fits, short) =
        part_short ts_size first (flatten (cs ++ last ∷ [])) s
          (flatten_nonempty cs last some_last) in
      let (ok, written, after) = append_partial ts_size outcome g [] first empty fits short in
      let step =
        put_chunks-cons first (cs ++ last ∷ []) f
        ∙ quiet (put_section ts_size outcome first true f) (cs ++ last ∷ []) (copied first g)
            (ap (λ (r : Put). r.ok) start ∙ ok) (ap (λ (r : Put). r.written) start ∙ written)
            (ap (λ (r : Put). r.filter) start ∙ after) in
      subst (λ b. Comes b _ (put_chunks ts_size outcomes first (cs ++ last ∷ []) f)) closed
        (subst (Comes g.closed _) (sym step) (
          rest_whole cs last first (copied first g) (copied-Holds g [] first empty) some_first
            some_last s))
