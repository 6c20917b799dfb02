-- ===== src/Filter/Section/Assembly.antt =====
-- Sections through cMcliFilter::PutSection of filter.c: what is cut into chunks comes out whole.
use vdr_plugin_mcli.Prelude.{
  ℕ, zero, suc, ◌+◌, ◌*◌, ◌%◌, ◌≤◌, ◌<◌, ◌≡◌, refl, ap, ap₂, sym, ◌∙◌, ◌≢◌, List, [], ◌∷◌, ◌++◌,
  Option, none, some, Bool, true, false, ◌&&◌, inl, inr, arith, ◌==◌, Bool-cases, get_or, length,
}
use vdr_plugin_mcli.Prelude.{length-append, get_or-append}
use vdr_plugin_mcli.PacketBuffer.{store}
use vdr_plugin_mcli.PacketBuffer.Bytes.{
  bytes_at, bytes_at-add, bytes_at-store_apart, bytes_at-store_self,
}
use vdr_plugin_mcli.Filter.Section.{
  McliFilter, WriteResult, sent, again, failed, announced, buffer_size, reset, drop_rest,
  write_section, append_chunk, put_section,
}

-- The filter has gathered these bytes.
abbrev pub Holds : McliFilter → List ℕ → Type 0
Holds f gathered = (f.used ≡ length gathered) × (bytes_at f.buffer 0 f.used ≡ gathered)

-- The length in the header of a section, header included.
unfoldable pub declared : List ℕ → ℕ
declared bytes = get_or bytes 1 0 % 16 * 256 + get_or bytes 2 0 + 3

get_or-bytes_at : (mem : ℕ → ℕ) (a n i : ℕ) → i < n → get_or (bytes_at mem a n) i 0 ≡ mem (a + i)
get_or-bytes_at mem a zero i h = absurd (omega arith)
get_or-bytes_at mem a (suc n) zero h = ap mem (omega arith)
get_or-bytes_at mem a (suc n) (suc i) h =
    get_or-bytes_at mem (a + 1) n i (omega arith) ∙ ap mem (omega arith)

announced-Holds :
    (f : McliFilter) (bytes : List ℕ)
    → Holds f bytes
    → 3 < length bytes
    → announced f.buffer ≡ declared bytes
unfolding declared
announced-Holds f bytes h long =
    let at : (i : ℕ) → i < length bytes → f.buffer i ≡ get_or bytes i 0 = λ i lt. sym (
      ap (λ l. get_or l i 0) (sym h.1)
      ∙ get_or-bytes_at f.buffer 0 f.used i (omega (arith, h.0))
      ∙ ap f.buffer (omega arith)) in
    ap₂ (λ x y. x % 16 * 256 + y + 3) (at 1 (omega arith)) (at 2 (omega arith))

-- Whether PutSection returns true behind a write: also where the socket is full.
abbrev pub accepts : WriteResult → Bool
accepts sent = true
accepts again = true
accepts (failed e) = false

-- m_closed behind a write.
abbrev pub closed_by : WriteResult → Bool → Bool
closed_by sent closed = closed
closed_by again closed = closed
closed_by (failed e) closed = true

-- The copy to m_Buffer.
abbrev pub copied : List ℕ → McliFilter → McliFilter
copied chunk f = record f { buffer = store f.buffer f.used chunk; used = f.used + length chunk }

pub copied-Holds :
    (f : McliFilter) (gathered chunk : List ℕ)
    → Holds f gathered
    → Holds (copied chunk f) (gathered ++ chunk)
copied-Holds f gathered chunk h = (
  omega (arith, length-append gathered chunk, h.0),
  bytes_at-add (store f.buffer f.used chunk) 0 f.used (length chunk)
      ∙ ap₂ ◌++◌ (bytes_at-store_apart f.buffer f.used chunk 0 f.used (omega arith) ∙ h.1) (
          ap (λ a. bytes_at (store f.buffer f.used chunk) a (length chunk)) (omega arith)
          ∙ bytes_at-store_self f.buffer f.used chunk),
)

module _ (ts_size : ℕ) where
  -- A chunk that does not complete the section is gathered.
  pub append_partial :
      (outcome : WriteResult) (f : McliFilter) (gathered chunk : List ℕ)
      → Holds f gathered
      → length (gathered ++ chunk) < buffer_size
      → (3 < length (gathered ++ chunk) → length (gathered ++ chunk) < declared (gathered ++ chunk))
      → let r = append_chunk ts_size outcome chunk f in
        (r.ok ≡ true) × (r.written ≡ none) × (r.filter ≡ copied chunk f)
  unfolding append_chunk write_section drop_rest
  append_partial outcome f gathered chunk h fits short =
      let (n, _) = copied-Holds f gathered chunk h in
      ground (
        arith,
        n,
        announced-Holds (copied chunk f) (gathered ++ chunk) (copied-Holds f gathered chunk h),
        short,
      )

  append_complete :
      (outcome : WriteResult) (f : McliFilter) (chunk : List ℕ)
      → f.used + length chunk < buffer_size
      → 3 < f.used + length chunk
      → announced (copied chunk f).buffer ≤ f.used + length chunk
      → let r = append_chunk ts_size outcome chunk f in
        (r.ok ≡ accepts outcome)
        × (r.written
            ≡ some (bytes_at (copied chunk f).buffer 0 (announced (copied chunk f).buffer)))
        × (r.filter.used ≡ 0)
        × (r.filter.closed ≡ closed_by outcome f.closed)
  unfolding append_chunk write_section drop_rest
  append_complete sent f chunk fits long whole = ground arith
  append_complete again f chunk fits long whole = ground arith
  append_complete (failed e) f chunk fits long whole = ground arith

  -- A chunk that completes the section hands it to write().
  pub append_last :
      (outcome : WriteResult) (f : McliFilter) (gathered chunk : List ℕ)
      → Holds f gathered
      → length (gathered ++ chunk) < buffer_size
      → 3 < length (gathered ++ chunk)
      → declared (gathered ++ chunk) ≡ length (gathered ++ chunk)
      → let r = append_chunk ts_size outcome chunk f in
        (r.ok ≡ accepts outcome)
        × (r.written ≡ some (gathered ++ chunk))
        × (r.filter.used ≡ 0)
        × (r.filter.closed ≡ closed_by outcome f.closed)
  append_last outcome f gathered chunk h fits long whole =
      let holds = copied-Holds f gathered chunk h in
      let len = announced-Holds (copied chunk f) (gathered ++ chunk) holds long in
      let (ok, written, used, shut) =
        append_complete outcome f chunk (omega (arith, holds.0)) (omega (arith, holds.0))
          (omega (arith, holds.0, len)) in
      let exact : announced (copied chunk f).buffer ≡ f.used + length chunk =
        len ∙ whole ∙ sym holds.0 in
      (ok, written ∙ ap some (ap (bytes_at (copied chunk f).buffer 0) exact ∙ holds.1), used, shut)

  abbrev pub to_list : Option (List ℕ) → List (List ℕ)
  to_list none = []
  to_list (some bytes) = bytes ∷ []

  -- The chunks behind the first one, through PutSection one by one, where `outcomes n` is what a write
  -- comes to with `n` chunks still behind: whether PutSection returned true each time, what was handed to
  -- write(), and the filter.
  unfoldable pub put_rest :
      (ℕ → WriteResult) → List (List ℕ) → McliFilter → Bool × List (List ℕ) × McliFilter
  put_rest outcomes [] f = (true, [], f)
  put_rest outcomes (c ∷ cs) f =
      let r = put_section ts_size (outcomes (length cs)) c false f in
      let (ok, written, f') = put_rest outcomes cs r.filter in
      (r.ok && ok, to_list r.written ++ written, f')

  -- A section in chunks: the first has Pusi set.
  unfoldable pub put_chunks :
      (ℕ → WriteResult) → List ℕ → List (List ℕ) → McliFilter → Bool × List (List ℕ) × McliFilter
  put_chunks outcomes c cs f =
      let r = put_section ts_size (outcomes (length cs)) c true f in
      let (ok, written, f') = put_rest outcomes cs r.filter in
      (r.ok && ok, to_list r.written ++ written, f')

  -- The bytes `bytes` are a section: at least four bytes, fewer than m_Buffer takes, and as many as
  -- they announce.
  abbrev pub IsSection : List ℕ → Type 0
  IsSection bytes =
      (3 < length bytes) × (length bytes < buffer_size) × (declared bytes ≡ length bytes)

  declared-prefix : (p rest : List ℕ) → 3 < length p → declared (p ++ rest) ≡ declared p
  unfolding declared
  declared-prefix p rest long =
      ap₂ (λ x y. x % 16 * 256 + y + 3) (get_or-append p rest 1 0 (omega arith))
        (get_or-append p rest 2 0 (omega arith))

  pub put_section-append :
      (outcome : WriteResult) (chunk : List ℕ) (f : McliFilter)
      → f.used ≢ 0
      → put_section ts_size outcome chunk false f ≡ append_chunk ts_size outcome chunk f
  unfolding put_section
  put_section-append outcome chunk f busy = ground arith

  -- A chunk with Pusi set starts afresh.
  pub put_section_afresh :
      (outcome : WriteResult) (chunk : List ℕ) (f : McliFilter)
      → (g : McliFilter) × Holds g []
        × (g.closed ≡ f.closed)
        × (put_section ts_size outcome chunk true f ≡ append_chunk ts_size outcome chunk g)
  unfolding put_section reset
  put_section_afresh outcome chunk f = elim (Bool-cases (f.used == 0)) [
    | inl idle ↦
        let z : f.used ≡ 0 = ground arith in
        (f, (z, ap (bytes_at f.buffer 0) z), refl, ground arith)
    | inr busy ↦ (record f { used = 0 }, (refl, refl), refl, ground arith)
  ]

  -- A part of a section that is not all of it does not complete it.
  pub part_short :
      (p rest : List ℕ)
      → IsSection (p ++ rest)
      → rest ≢ []
      → (length p < buffer_size) × (3 < length p → length p < declared p)
  part_short p [] s ne = absurd (ne refl)
  part_short p (x ∷ rest) s ne =
      let n = length-append p (x ∷ rest) in
      (omega arith, λ long. omega (arith, declared-prefix p (x ∷ rest) long))
