-- ===== src/Util/Align.antt =====
-- The mask of `align_to` in src/util.rs.
use Prim.Native.Nat.{bit_and, digits, bit_and-bitwise, min}
use melvin.Prelude.{
  ℕ, zero, suc, ◌+◌, ◌-◌, ◌*◌, ◌/◌, ◌%◌, ◌^◌, ◌<◌, ◌≤◌, ◌≡◌, refl, sym, ap, ◌∙◌, arith, two64,
}
use native.Mathlib.Omega.{pow_step, div_any}
use native.Mathlib.Nat.{div-div-eq-div-mul, mul-mod_left}
use melvin.Util.{align_to}

-- The definition that `bit_and` stands for, on enough fuel.
abbrev both_digits : ℕ → ℕ → ℕ → ℕ
both_digits f x y = digits (λ _. zero) min f x y

both_digits-fuel : (f g x y : ℕ) → x ≤ f → x ≤ g → both_digits f x y ≡ both_digits g x y
both_digits-fuel zero zero x y p q = refl
both_digits-fuel zero (suc g) zero y p q = refl
both_digits-fuel zero (suc g) (suc x) y p q = absurd (omega arith)
both_digits-fuel (suc f) zero zero y p q = refl
both_digits-fuel (suc f) zero (suc x) y p q = absurd (omega arith)
both_digits-fuel (suc f) (suc g) zero y p q = refl
both_digits-fuel (suc f) (suc g) (suc x) y p q =
    omega (arith, both_digits-fuel f g (suc x / 2) (y / 2) (omega arith) (omega arith))

bit_and-digits : (x y : ℕ) → bit_and x y ≡ bit_and (x / 2) (y / 2) * 2 + min (x % 2) (y % 2)
bit_and-digits zero y = omega (arith, bit_and-bitwise 0 y, bit_and-bitwise 0 (y / 2))
bit_and-digits (suc x) y = omega (
  arith,
  bit_and-bitwise (suc x) y,
  bit_and-bitwise (suc x / 2) (y / 2),
  both_digits-fuel x (suc x / 2) (suc x / 2) (y / 2) (omega arith) (omega arith),
)

-- A mask of `m` ones keeps a number of at most `m` digits.
bit_and-ones : (m x : ℕ) → x < 2 ^ m → bit_and x (2 ^ m - 1) ≡ x
bit_and-ones zero x h = let e : x ≡ 0 = omega arith in rw e refl
bit_and-ones (suc m) x h =
    let p = pow_step 2 m in
    let half : (2 ^ suc m - 1) / 2 ≡ 2 ^ m - 1 = omega arith in
    let digits2 = bit_and-digits x (2 ^ suc m - 1) in
    let rest : bit_and (x / 2) ((2 ^ suc m - 1) / 2) ≡ x / 2 =
      rw half (bit_and-ones m (x / 2) (omega arith)) in
    omega arith

twice : (a b c : ℕ) → c ≡ 2 * b → a * c ≡ 2 * (a * b)
twice a b c e = rw e (grind arith)

pow_add : (k m : ℕ) → 2 ^ k * 2 ^ m ≡ 2 ^ (k + m)
pow_add zero m = let e : 0 + m ≡ m = omega arith in rw e (omega arith)
pow_add (suc k) m =
    let e : suc k + m ≡ suc (k + m) = omega arith in
    let ih = pow_add k m in rw (e, pow_step 2 k, pow_step 2 (k + m)) (grind arith)

-- A mask of `m` ones in front of `k` zeros keeps all but the last `k` digits.
bit_and-high : (k m x : ℕ) → x < 2 ^ (k + m) → bit_and x ((2 ^ m - 1) * 2 ^ k) ≡ x / 2 ^ k * 2 ^ k
bit_and-high zero m x h =
    let e : (2 ^ m - 1) * 1 ≡ 2 ^ m - 1 = omega arith in
    let none : 0 + m ≡ m = omega arith in
    let all = bit_and-ones m x (rw none at h) in rw e (omega arith)
bit_and-high (suc k) m x h =
    let p = pow_step 2 k in
    let q = pow_step 2 (k + m) in
    let shift : suc k + m ≡ suc (k + m) = omega arith in
    let step_up : x < 2 ^ suc (k + m) = rw shift at h in
    let double : (2 ^ m - 1) * 2 ^ suc k ≡ 2 * ((2 ^ m - 1) * 2 ^ k) =
      twice (2 ^ m - 1) (2 ^ k) (2 ^ suc k) p in
    let half : (2 ^ m - 1) * 2 ^ suc k / 2 ≡ (2 ^ m - 1) * 2 ^ k = omega arith in
    let step = bit_and-digits x ((2 ^ m - 1) * 2 ^ suc k) in
    let rest : bit_and (x / 2) ((2 ^ m - 1) * 2 ^ suc k / 2) ≡ x / 2 / 2 ^ k * 2 ^ k =
      rw half (bit_and-high k m (x / 2) (omega (arith, step_up))) in
    let quotient : x / 2 / 2 ^ k ≡ x / 2 ^ suc k =
      div-div-eq-div-mul x 2 (2 ^ k) ∙ ap (λ d. x / d) (sym p) in
    let again : x / 2 ^ suc k * 2 ^ suc k ≡ 2 * (x / 2 ^ suc k * 2 ^ k) =
      twice (x / 2 ^ suc k) (2 ^ k) (2 ^ suc k) p in
    let even : (2 ^ m - 1) * 2 ^ suc k % 2 ≡ 0 = rw double (omega arith) in
    let low : min (x % 2) ((2 ^ m - 1) * 2 ^ suc k % 2) ≡ 0 = rw even (omega arith) in
    step ∙ rw (low, rest, quotient, again) (omega arith)

pow_pos : (k : ℕ) → 0 < 2 ^ k
pow_pos zero = omega arith
pow_pos (suc k) = omega (arith, pow_step 2 k, pow_pos k)

mask_of : (p q : ℕ) → p * (q + 1) ≡ two64 → 0 < p → 0 < q → (q * p ≡ two64 - p) × (p < two64)
mask_of p q h some_p some_q =
    let split : p * (q + 1) ≡ q * p + p = grind arith in
    let some : 0 < q * p = grind arith in (omega arith, omega arith)

-- `align_to` rounds up to a multiple of 2^k, for a `k` below 64, where the sum does not overflow.
pub align_to_lem :
    (num k m : ℕ)
    → k + suc m ≡ 64
    → num + (2 ^ k - 1) < two64
    → align_to num (2 ^ k) ≡ (num + (2 ^ k - 1)) / 2 ^ k * 2 ^ k
unfolding align_to
align_to_lem num k m e h =
    let p = pow_pos k in
    let q = pow_pos m in
    let q1 = pow_step 2 m in
    let more : 2 ^ suc m - 1 + 1 ≡ 2 ^ suc m = omega arith in
    let whole : 2 ^ k * (2 ^ suc m - 1 + 1) ≡ two64 =
      rw more (pow_add k (suc m) ∙ ap (λ n. 2 ^ n) e) in
    let (mask, below) = mask_of (2 ^ k) (2 ^ suc m - 1) whole p (omega arith) in
    let agn : (2 ^ k + two64 - 1) % two64 ≡ 2 ^ k - 1 = omega (arith, p, below) in
    let inverse : two64 - 1 - (2 ^ k - 1) ≡ (2 ^ suc m - 1) * 2 ^ k = omega arith in
    let fits : (num + (2 ^ k - 1)) % two64 ≡ num + (2 ^ k - 1) = omega (arith, h) in
    rw (agn, inverse, fits) (bit_and-high k (suc m) (num + (2 ^ k - 1)) (rw e h))

rounded_up :
    (n p : ℕ)
    → 0 < p
    → (n ≤ (n + (p - 1)) / p * p)
      × ((n + (p - 1)) / p * p < n + p)
      × ((n + (p - 1)) / p * p % p ≡ 0)
rounded_up n p h =
    let d = div_any (n + (p - 1)) p in
    let r : (n + (p - 1)) % p < p = grind arith in
    (omega arith, omega arith, mul-mod_left ((n + (p - 1)) / p) p)

-- The value lies at or above `num`, less than 2^k above it, and 2^k divides it.
pub align_to-bounds :
    (num k m : ℕ)
    → k + suc m ≡ 64
    → num + (2 ^ k - 1) < two64
    → (num ≤ align_to num (2 ^ k))
      × (align_to num (2 ^ k) < num + 2 ^ k)
      × (align_to num (2 ^ k) % 2 ^ k ≡ 0)
align_to-bounds num k m e h = rw (align_to_lem num k m e h) (rounded_up num (2 ^ k) (pow_pos k))
