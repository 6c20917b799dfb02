-- ===== src/Filter/Filters/Keeps.antt =====
-- What PutTS and the thread of cMcliFilters (filter.c) leave of the list of filters.
use vdr_plugin_mcli.Prelude.{
  ℕ, ◌+◌, ◌≤◌, ◌≡◌, refl, subst, inl, inr, Bool, Bool-cases, Option, none, some, Option-cases, List,
  [], ◌∷◌, ◌++◌, arith,
}
use vdr_plugin_mcli.PacketBuffer.{Round}
use vdr_plugin_mcli.Filter.Section.Keeps.{put_section-Same}
use vdr_plugin_mcli.Filter.Section.{McliFilter}
use vdr_plugin_mcli.Filter.Demux.{packet_pid}
use vdr_plugin_mcli.Filter.Filters.{
  McliFilters, Sockets, want_pid, uses, put_packets, put_ts, deliver,
}

pub uses-append : (fs gs : List McliFilter) (p : ℕ) → uses (fs ++ gs) p ≡ uses fs p + uses gs p
unfolding uses
uses-append [] gs p = omega arith
uses-append (f ∷ fs) gs p = omega (arith, uses-append fs gs p)

abbrev Kept : McliFilters → Option McliFilters → Type 0
Kept m none = Unit {0}
Kept m (some m') = (m'.pl ≡ m.pl) × (m'.filters ≡ m.filters)

put_ts-Kept :
    (ts_size : ℕ) (rounds : ℕ → List Round) (mem : ℕ → ℕ) (len : ℕ) (m : McliFilters)
    → Kept m (put_ts ts_size rounds mem len m)
unfolding put_ts
put_ts-Kept ts_size rounds mem len m = elim (Option-cases m.pb) [
  | inl e ↦ rw (put_ts, e) (refl, refl)
  | inr (b, e) ↦ elim (Bool-cases (want_pid m.filters (packet_pid mem 0))) [
    | inr w ↦ rw (put_ts, e, w) (refl, refl)
    | inl w ↦ elim (Option-cases (put_packets len ts_size rounds mem 0 len b)) [
      | inl k ↦ rw (put_ts, e, w, k) tt
      | inr (b', k) ↦ rw (put_ts, e, w, k) (refl, refl)
    ]
  ]
]

pub put_ts-keeps :
    (ts_size : ℕ) (rounds : ℕ → List Round) (mem : ℕ → ℕ) (len : ℕ) (m m' : McliFilters)
    → put_ts ts_size rounds mem len m ≡ some m'
    → (m'.pl ≡ m.pl) × (m'.filters ≡ m.filters)
put_ts-keeps ts_size rounds mem len m m' e = subst (Kept m) e (put_ts-Kept ts_size rounds mem len m)

pub uses-deliver :
    (ts_size : ℕ) (sockets : Sockets) (pid tid : ℕ) (chunk : List ℕ) (pusi : Bool)
    → (fs : List McliFilter) (p : ℕ)
    → uses (deliver ts_size sockets pid tid chunk pusi fs).1 p ≤ uses fs p
unfolding uses deliver
uses-deliver ts_size sockets pid tid chunk pusi [] p = omega arith
uses-deliver ts_size sockets pid tid chunk pusi (f ∷ fs) p = ground (
  arith,
  uses-deliver ts_size sockets pid tid chunk pusi fs p,
  (put_section-Same ts_size (sockets f.pipe) chunk pusi f).1,
)
