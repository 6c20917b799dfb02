-- ===== src/Prelude/Search.antt =====
-- The search for the first element that passes a test, and texts as lists of characters.
use Prim.Native.Nat.{ℕ, zero, suc, ◌<◌}
use mathlib.Core.Path.{◌≡◌, refl, sym, ap, ap₂, subst, ◌∙◌}
use mathlib.Core.Logic.{inl, inr}
use mathlib.Core.Bool.{Bool, true, false, ◌&&◌}
use mathlib.Core.Option.{Option, none, some}
use mathlib.Core.List.{List, [], ◌∷◌}
use native.Mathlib.Omega.{arith}
use vdr_plugin_mcli.Prelude.Tests.{if◌then◌else◌, ◌==◌, Bool-cases, Option-cases}
use vdr_plugin_mcli.Prelude.Lists.{length, get_or, set, All}

abbrev pub shift : Option ℕ → Option ℕ
shift none = none
shift (some i) = some (suc i)

-- `for (i = 0; i < max; i++) if (test) return i;`
unfoldable pub find_index {ℓ} : {A : Type ℓ} → (A → Bool) → List A → Option ℕ
find_index test [] = none
find_index test (x ∷ xs) = if test x then some 0 else shift (find_index test xs)

pub find_index-some {ℓ} :
    {A : Type ℓ} (test : A → Bool) (xs : List A) (i : ℕ) (d : A)
    → find_index test xs ≡ some i
    → (i < length xs) × (test (get_or xs i d) ≡ true)
unfolding find_index
find_index-some test [] i d e = absurd (grind (arith, e))
find_index-some test (x ∷ xs) i d e = elim (Bool-cases (test x)) [
  | inl h ↦
      let first : some 0 ≡ some i =
        subst (λ b. (if b then some 0 else shift (find_index test xs)) ≡ some i) h e in
      elim i
          as (λ k. some 0 ≡ some k → (k < suc (length xs)) × (test (get_or (x ∷ xs) k d) ≡ true)) [
            | zero ↦ λ q. (omega arith, h)
            | suc k ↦ λ q. absurd (grind (arith, q))
          ]
        first
  | inr h ↦ elim (Option-cases (find_index test xs)) [
    | inl k ↦ absurd (
        grind
          (arith, subst (λ b. (if b then some 0 else shift (find_index test xs)) ≡ some i) h e, k))
    | inr (j, k) ↦
        let (below, passes) = find_index-some test xs j d k in
        let later : some (suc j) ≡ some i =
          sym (ap shift k)
          ∙ subst (λ b. (if b then some 0 else shift (find_index test xs)) ≡ some i) h e in
        let same : suc j ≡ i = grind (arith, later) in rw⁻¹ same (omega (arith, below), passes)
  ]
]

pub find_index-none {ℓ} :
    {A : Type ℓ} (test : A → Bool) (xs : List A)
    → find_index test xs ≡ none
    → All (λ x. test x ≡ false) xs
unfolding find_index
find_index-none test [] e = tt
find_index-none test (x ∷ xs) e = elim (Bool-cases (test x)) [
  | inl h ↦
      absurd
        (grind (arith, subst (λ b. (if b then some 0 else shift (find_index test xs)) ≡ none) h e))
  | inr h ↦ elim (Option-cases (find_index test xs)) [
    | inl k ↦ (h, find_index-none test xs k)
    | inr (j, k) ↦ absurd (
        grind
          (arith, subst (λ b. (if b then some 0 else shift (find_index test xs)) ≡ none) h e, k))
  ]
]

-- strcmp (a, b) == 0
unfoldable pub same_text : List ℕ → List ℕ → Bool
same_text [] [] = true
same_text (x ∷ xs) (y ∷ ys) = x == y && same_text xs ys
same_text [] (y ∷ ys) = false
same_text (x ∷ xs) [] = false

pub same_text-eq : (xs ys : List ℕ) → same_text xs ys ≡ true → xs ≡ ys
unfolding same_text
same_text-eq [] [] e = refl
same_text-eq (x ∷ xs) (y ∷ ys) e = elim (Bool-cases (x == y)) [
  | inl h ↦
      ap₂ (◌∷◌) (ground (arith, h))
        (same_text-eq xs ys (subst (λ b. (b && same_text xs ys) ≡ true) h e))
  | inr h ↦ absurd (grind (arith, subst (λ b. (b && same_text xs ys) ≡ true) h e))
]
same_text-eq [] (y ∷ ys) e = absurd (grind (arith, e))
same_text-eq (x ∷ xs) [] e = absurd (grind (arith, e))

pub same_text_refl : (xs : List ℕ) → same_text xs xs ≡ true
unfolding same_text
same_text_refl [] = refl
same_text_refl (x ∷ xs) = ground (arith, same_text_refl xs)

module _ {ℓ} {A : Type ℓ} where
  -- An entry that is set back gives the list back.
  pub set-set :
      (xs : List A) (i : ℕ) (v w d : A)
      → w ≡ get_or xs i d
      → i < length xs
      → set (set xs i v) i w ≡ xs
  set-set [] i v w d e h = absurd (omega (arith, h))
  set-set (x ∷ xs) zero v w d e h = ap (◌∷ xs) e
  set-set (x ∷ xs) (suc i) v w d e h = ap (x ∷◌) (set-set xs i v w d e (omega (arith, h)))
