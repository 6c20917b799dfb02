-- ===== src/Prelude/Bits.antt =====
-- `x & (2^k - 1)` keeps the low k bits. The law for one bit comes from the digit recursion that the
-- native operation stands for.
use Prim.Native.Nat.{digits, bit_and-bitwise}
use native.Mathlib.Nat.{
  pow-suc, pow-succ', zero-add, mul_assoc, mod-lt, div-add-mod, add-mul-mod_self_left, mod-eq_of_lt,
}
use vdr_plugin_mcli.Prelude.{
  ℕ, zero, suc, ◌+◌, ◌-◌, ◌*◌, ◌/◌, ◌%◌, ◌^◌, ◌≤◌, ◌<◌, min, bit_and, ◌≡◌, ap, sym, ◌∙◌, arith,
}

pub pow_pos : (k : ℕ) → 0 < 2 ^ k
pow_pos zero = omega arith
pow_pos (suc k) = omega (arith, pow-suc 2 k, pow_pos k)

-- The remainder by 2m is the remainder of the half by m, and the last bit.
mod_double : (a m : ℕ) → 0 < m → a % (2 * m) ≡ (a / 2) % m * 2 + a % 2
mod_double a m h =
    let low : (a / 2) % m < m = mod-lt (a / 2) h in
    let split : a ≡ ((a / 2) % m * 2 + a % 2) + 2 * m * (a / 2 / m) =
      omega (arith, div-add-mod (a / 2) m) in
    ap (λ t. t % (2 * m)) split
    ∙ add-mul-mod_self_left ((a / 2) % m * 2 + a % 2) (2 * m) (a / 2 / m)
    ∙ mod-eq_of_lt (omega arith)

-- The number of k + 1 ones is odd, and its half is that of k ones.
ones_half : (m : ℕ) → 0 < m → ((2 * m - 1) / 2 ≡ m - 1) × ((2 * m - 1) % 2 ≡ 1)
ones_half m h = omega arith

-- The digits of a number that a mask of k ones leaves, with as many rounds as the number at least.
abbrev masked : (rounds a k : ℕ) → ℕ
masked rounds a k = digits (λ _. 0) min rounds a (2 ^ k - 1)

masked_lem : (rounds k a : ℕ) → a ≤ rounds → masked rounds a k ≡ a % 2 ^ k
masked_lem zero k zero h = sym (mod-eq_of_lt (pow_pos k))
masked_lem zero k (suc a) h = absurd (omega (arith, h))
masked_lem (suc rounds) k zero h = sym (mod-eq_of_lt (pow_pos k))
masked_lem (suc rounds) zero (suc a) h =
    omega (arith, masked_lem rounds 0 (suc a / 2) (omega (arith, h)))
masked_lem (suc rounds) (suc k) (suc a) h =
    let twice : 2 ^ suc k ≡ 2 * 2 ^ k = omega (arith, pow-suc 2 k) in
    let (half, odd) = ones_half (2 ^ k) (pow_pos k) in
    rw
      (
        twice,
        half,
        odd,
        masked_lem rounds k (suc a / 2) (omega (arith, h)),
        mod_double (suc a) (2 ^ k) (pow_pos k),
      )
      (omega arith)

-- `a & (2^k - 1)` is `a % 2^k`.
pub bit_and_mask : (k a : ℕ) → bit_and a (2 ^ k - 1) ≡ a % 2 ^ k
bit_and_mask k a = bit_and-bitwise a (2 ^ k - 1) ∙ masked_lem a k a (omega arith)

pub pow-add : (k j : ℕ) → 2 ^ (k + j) ≡ 2 ^ k * 2 ^ j
pow-add zero j = ap (λ t. 2 ^ t) (zero-add j) ∙ omega arith
pow-add (suc k) j =
    let shift : suc k + j ≡ suc (k + j) = omega arith in
    ap (λ t. 2 ^ t) shift
    ∙ pow-succ' 2 (k + j)
    ∙ ap (λ t. 2 * t) (pow-add k j)
    ∙ sym (mul_assoc 2 (2 ^ k) (2 ^ j))
    ∙ ap (λ t. t * 2 ^ j) (sym (pow-succ' 2 k))

ones_mod : (m n : ℕ) → 0 < m → 0 < n → (m * n - 1) % m ≡ m - 1
ones_mod m zero hm hn = absurd (omega arith)
ones_mod m (suc n) hm hn =
    let e : m * suc n - 1 ≡ m - 1 + m * n = grind arith in
    ap (λ t. t % m) e ∙ add-mul-mod_self_left (m - 1) m n ∙ mod-eq_of_lt (omega arith)

-- All ones, cut to fewer ones.
pub ones_wrap : (k : ℕ) → k ≤ 31 → (2 ^ 32 - 1) % 2 ^ k ≡ 2 ^ k - 1
ones_wrap k h =
    let e : k + (32 - k) ≡ 32 = omega arith in
    ap (λ t. (t - 1) % 2 ^ k) (sym (ap (λ t. 2 ^ t) e) ∙ pow-add k (32 - k))
    ∙ ones_mod (2 ^ k) (2 ^ (32 - k)) (pow_pos k) (pow_pos (32 - k))

pub pow-le-31 : (k : ℕ) → k ≤ 31 → 2 ^ k ≤ 2 ^ 31
pow-le-31 k h =
    let e : k + (31 - k) ≡ 31 = omega arith in
    let split : 2 ^ 31 ≡ 2 ^ k * 2 ^ (31 - k) = sym (ap (λ t. 2 ^ t) e) ∙ pow-add k (31 - k) in
    let rest : 0 < 2 ^ (31 - k) = pow_pos (31 - k) in rw split (grind arith)
