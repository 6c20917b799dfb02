-- ===== src/Mcli/Tuners/Count.antt =====
-- TunerCount of mcli.c: how many devices are enabled.
use vdr_plugin_mcli.Prelude.{
  ℕ, zero, suc, ◌+◌, ◌≤◌, ◌≡◌, refl, ap, ap₂, ◌∙◌, some, List, [], ◌∷◌, arith, if◌then◌else◌, min,
}
use vdr_plugin_mcli.Prelude.Int.{ℤ, pos, negsuc}
use vdr_plugin_mcli.Mcli.Tuners.{
  TunerPool, FeTypes, Limits, is_kind, count_kind, sum_kinds, tuner_count,
}

-- The tuners of a type.
abbrev pub of_kind : ℕ → List TunerPool → ℕ
of_kind k [] = 0
of_kind k (tp ∷ pool) = (if is_kind (some k) tp then 1 else 0) + of_kind k pool

-- A limit as a number: a negative one admits nothing.
abbrev pub capacity : ℤ → ℕ
capacity (pos n) = n
capacity (negsuc n) = 0

-- The sum of a function over the numbers below k.
abbrev pub sum_below : (ℕ → ℕ) → ℕ → ℕ
sum_below f zero = 0
sum_below f (suc k) = sum_below f k + f k

count_kind-min :
    (limits : Limits) (k : ℕ) (pool : List TunerPool) (n : ℕ) (limit : ℤ)
    → limits (some k) ≡ limit
    → n ≤ capacity limit
    → count_kind limits k pool n ≡ min (n + of_kind k pool) (capacity limit)
unfolding count_kind
count_kind-min limits k [] n limit e h = ground arith
count_kind-min limits k (tp ∷ pool) n (pos m) e h = rw e (
    ground (
      arith,
      count_kind-min limits k pool n (pos m) e,
      count_kind-min limits k pool (n + 1) (pos m) e,
    ))
count_kind-min limits k (tp ∷ pool) n (negsuc m) e h =
    rw e (ground (arith, count_kind-min limits k pool n (negsuc m) e h))

sum_kinds-min :
    (limits : Limits) (k : ℕ) (pool : List TunerPool)
    → sum_kinds limits k pool ≡ sum_below (λ t. min (of_kind t pool) (capacity (limits (some t)))) k
unfolding sum_kinds
sum_kinds-min limits zero pool = refl
sum_kinds-min limits (suc k) pool = ap₂ (◌+◌) (sum_kinds-min limits k pool) (
    count_kind-min limits k pool 0 (limits (some k)) refl (omega arith)
    ∙ ap (λ n. min n (capacity (limits (some k)))) (omega arith))

-- TunerCount is the sum, over the tuner types, of the number of tuners of the type, cut at its limit.
pub tuner_count-min :
    (fe : FeTypes) (limits : Limits) (pool : List TunerPool)
    → tuner_count fe limits pool
      ≡ sum_below (λ t. min (of_kind t pool) (capacity (limits (some t)))) (fe.dvbs2 + 1)
unfolding tuner_count
tuner_count-min fe limits pool = sum_kinds-min limits (fe.dvbs2 + 1) pool
