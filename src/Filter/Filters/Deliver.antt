-- ===== src/Filter/Filters/Deliver.antt =====
-- ProcessChunk of filter.c: which filters a chunk reaches.
use vdr_plugin_mcli.Prelude.{
  ℕ, ◌≡◌, refl, ap, Bool, true, Bool-cases, ◌⊎◌, inl, inr, Option, none, some, List, [], ◌∷◌,
  if◌then◌else◌, All, All-append,
}
use vdr_plugin_mcli.Filter.Section.{McliFilter, matches, put_section}
use vdr_plugin_mcli.Filter.Section.Keeps.{put_section-Same, matches-Same}
use vdr_plugin_mcli.Filter.Filters.{Sent, Sockets, sent_on, deliver}

-- The filters that do not match, in their order.
abbrev pub others : ℕ → ℕ → List McliFilter → List McliFilter
others pid tid [] = []
others pid tid (f ∷ fs) = if matches f pid tid then others pid tid fs else f ∷ others pid tid fs

-- One of the filters matches and has the handle.
pub Reached : ℕ → ℕ → List McliFilter → Option ℕ → Type 0
Reached pid tid [] handle = ⊥
Reached pid tid (f ∷ fs) handle =
    ((matches f pid tid ≡ true) × (handle ≡ f.pipe)) ⊎ Reached pid tid fs handle

All-Reached :
    (pid tid : ℕ) (f : McliFilter) (fs : List McliFilter) (out : List Sent)
    → All (λ s. Reached pid tid fs s.handle) out
    → All (λ s. Reached pid tid (f ∷ fs) s.handle) out
unfolding Reached
All-Reached pid tid f fs [] h = tt
All-Reached pid tid f fs (s ∷ out) h = (inr h.0, All-Reached pid tid f fs out h.1)

sent_on-Reached :
    (pid tid : ℕ) (f : McliFilter) (fs : List McliFilter) (written : Option (List ℕ))
    → matches f pid tid ≡ true
    → All (λ s. Reached pid tid (f ∷ fs) s.handle) (sent_on f.pipe written)
unfolding Reached
sent_on-Reached pid tid f fs none h = tt
sent_on-Reached pid tid f fs (some bytes) h = (inl (h, refl), tt)

-- For a table id that is known, ProcessChunk leaves the filters that do not match the PID and the table
-- as they are, in their order, and writes to the sockets of filters that match only.
pub deliver_lem :
    (ts_size : ℕ) (sockets : Sockets) (pid tid : ℕ) (chunk : List ℕ) (pusi : Bool)
    → (fs : List McliFilter)
    → let (out, fs') = deliver ts_size sockets pid tid chunk pusi fs in
      (others pid tid fs' ≡ others pid tid fs) × All (λ s. Reached pid tid fs s.handle) out
unfolding deliver
deliver_lem ts_size sockets pid tid chunk pusi [] = (refl, tt)
deliver_lem ts_size sockets pid tid chunk pusi (f ∷ fs) =
    let (same, reached) = deliver_lem ts_size sockets pid tid chunk pusi fs in
    let put = put_section ts_size (sockets f.pipe) chunk pusi f in
    let (out, rest) = deliver ts_size sockets pid tid chunk pusi fs in
    elim (Bool-cases (matches f pid tid)) [
      | inr h ↦ rw (h, h) (ap (f ∷◌) same, All-Reached pid tid f fs out reached)
      | inl h ↦
          let still : matches put.filter pid tid ≡ true =
            matches-Same f put.filter pid tid
              (put_section-Same ts_size (sockets f.pipe) chunk pusi f) h in
          let all =
            All-append (λ s. Reached pid tid (f ∷ fs) s.handle) (sent_on f.pipe put.written) out
              (sent_on-Reached pid tid f fs put.written h) (All-Reached pid tid f fs out reached) in
          elim (Bool-cases put.ok) [
            | inl ok ↦ rw (h, ok, still) (same, all)
            | inr gone ↦ rw (h, gone) (same, all)
          ]
    ]
