-- ===== src/Prelude/Decimal.antt =====
-- `str::parse::<i64>`, `parse::<u32>` and `format!("{}", x)` of an `i64`, of the standard library.
use mathlib.Core.Bool.{Bool, true, ◌||◌}
use mathlib.Core.List.{[], ◌∷◌}
use mathlib.Core.Logic.{inl, inr}
use mathlib.Core.Option.{Option, none, some}
use mathlib.Core.Path.{◌≡◌, refl, sym, ap, ◌∙◌}
use native.Mathlib.Omega.{arith}
use Prim.Native.Nat.{ℕ, zero, suc, ◌+◌, ◌-◌, ◌*◌, ◌/◌, ◌%◌, ◌<◌}
use melvin.Prelude.Compare.{ltb, ◌==◌, if◌then◌else◌, Bool-cases}
use melvin.Prelude.Text.{Bytes}
use melvin.Prelude.Utf8.{within, All}
use melvin.Prelude.Int.{ℤ, pos, negsuc, two63, IsI64}

abbrev pub is_digit : ℕ → Bool
is_digit c = within b'0' b'9' c

-- The value of decimal digits behind `n`.
pub scan : ℕ → Bytes → Option ℕ
scan n [] = some n
scan n (c ∷ cs) = let rest = scan (n * 10 + (c - b'0')) cs in if is_digit c then rest else none

abbrev signed_neg : Option ℕ → Option ℤ
signed_neg none = none
signed_neg (some zero) = some (pos 0)
signed_neg (some (suc n)) = if ltb n two63 then some (negsuc n) else none

abbrev signed_pos : Option ℕ → Option ℤ
signed_pos none = none
signed_pos (some n) = if ltb n two63 then some (pos n) else none

abbrev unsigned : Bytes → Option ℕ
unfolding scan
unsigned [] = none
unsigned (c ∷ cs) = scan 0 (c ∷ cs)

-- A sign, then one digit or more; a value that does not fit is an error.
unfoldable pub parse_i64 : Bytes → Option ℤ
unfolding scan unsigned
parse_i64 [] = none
parse_i64 (c ∷ cs) =
    if c == b'-'
    then signed_neg (unsigned cs)
    else if c == b'+'
    then signed_pos (unsigned cs)
    else signed_pos (unsigned (c ∷ cs))

abbrev below_u32 : Option ℕ → Option ℕ
below_u32 none = none
below_u32 (some n) = if ltb n 0x100000000 then some n else none

-- `str::parse::<u32>`
unfoldable pub parse_u32 : Bytes → Option ℕ
unfolding unsigned
parse_u32 [] = none
parse_u32 (c ∷ cs) = below_u32 (if c == b'+' then unsigned cs else unsigned (c ∷ cs))

-- The digits of `n` in front of `out`.
digits : ℕ → ℕ → Bytes → Bytes
digits zero n out = out
digits (suc f) n out =
    let d = (b'0' + n % 10) ∷ out in let rest = digits f (n / 10) d in if ltb n 10 then d else rest

unfoldable pub format_u64 : ℕ → Bytes
unfolding digits
format_u64 n = digits (suc n) n []

unfoldable pub format_i64 : ℤ → Bytes
unfolding format_u64
format_i64 (pos n) = format_u64 n
format_i64 (negsuc n) = b'-' ∷ format_u64 (suc n)

runs :
    (parse_i64 (format_i64 (pos 1207)) ≡ some (pos 1207))
    × (parse_i64 (format_i64 (negsuc (two63 - 1))) ≡ some (negsuc (two63 - 1)))
    × (parse_i64 (b'-' ∷ []) ≡ none)
    × (format_i64 (pos 0) ≡ b'0' ∷ [])
unfolding parse_i64 format_i64
runs = (refl, refl, refl, refl)

scan-digits : (f n : ℕ) (out : Bytes) → n < f → scan 0 (digits f n out) ≡ scan n out
unfolding scan digits
scan-digits zero n out h = absurd (omega arith)
scan-digits (suc f) n out h = elim (Bool-cases (ltb n 10)) [
  | inl small ↦ ground arith
  | inr large ↦
      rw large (scan-digits f (n / 10) ((b'0' + n % 10) ∷ out) (ground arith) ∙ ground arith)
]

-- The first byte is a digit, and so are all.
digits-IsDigits :
    (f n : ℕ) (out : Bytes)
    → All (λ c. is_digit c ≡ true) out
    → All (λ c. is_digit c ≡ true) (digits f n out)
unfolding digits
digits-IsDigits zero n out h = h
digits-IsDigits (suc f) n out h = elim (Bool-cases (ltb n 10)) [
  | inl small ↦ rw small (ground arith, h)
  | inr large ↦ rw large (digits-IsDigits f (n / 10) ((b'0' + n % 10) ∷ out) (ground arith, h))
]

digits_cons : (f n : ℕ) (out : Bytes) → (c : ℕ) × (cs : Bytes) × (digits (suc f) n out ≡ c ∷ cs)
unfolding digits
digits_cons zero n out = (b'0' + n % 10, out, ground arith)
digits_cons (suc f) n out = elim (Bool-cases (ltb n 10)) [
  | inl small ↦ (b'0' + n % 10, out, rw small)
  | inr large ↦ rw large (digits_cons f (n / 10) ((b'0' + n % 10) ∷ out))
]

-- A printed number is a digit and more digits.
pub format_u64_cons :
    (n : ℕ)
    → (c : ℕ) × (cs : Bytes) × (format_u64 n ≡ c ∷ cs)
      × (is_digit c ≡ true)
      × All (λ c. is_digit c ≡ true) cs
      × (scan 0 (c ∷ cs) ≡ some n)
unfolding format_u64
format_u64_cons n =
    let (c, cs, e) = digits_cons n n [] in
    let (h, hs) = rw e at (digits-IsDigits (suc n) n [] tt) in
    (c, cs, e, h, hs, rw e at (scan-digits (suc n) n [] (omega arith)) ∙ unfold scan in refl)

-- An `i64` is read back from its print.
pub parse_i64-format_i64 : (z : ℤ) → IsI64 z → parse_i64 (format_i64 z) ≡ some z
unfolding parse_i64 format_i64
parse_i64-format_i64 (pos n) h =
    let (c, cs, e, d, ds, s) = format_u64_cons n in rw e (ground (arith, s))
parse_i64-format_i64 (negsuc n) h =
    let (c, cs, e, d, ds, s) = format_u64_cons (suc n) in rw e (ground (arith, s))

-- A number that fits `u32` is read back from its print.
pub parse_u32-format_u64 : (n : ℕ) → n < 0x100000000 → parse_u32 (format_u64 n) ≡ some n
unfolding parse_u32
parse_u32-format_u64 n h = let (c, cs, e, d, ds, s) = format_u64_cons n in rw e (ground (arith, s))

-- A printed `i64` is a digit or a minus sign, then digits.
pub format_i64_cons :
    (z : ℤ)
    → IsI64 z
    → (c : ℕ) × (cs : Bytes) × (format_i64 z ≡ c ∷ cs)
      × ((is_digit c || c == b'-') ≡ true)
      × All (λ c. is_digit c ≡ true) cs
      × (parse_i64 (c ∷ cs) ≡ some z)
unfolding format_i64
format_i64_cons (pos n) h =
    let (c, cs, e, d, ds, s) = format_u64_cons n in
    (c, cs, e, rw d, ds, rw e at (parse_i64-format_i64 (pos n) h))
format_i64_cons (negsuc n) h =
    let (c, cs, e, d, ds, s) = format_u64_cons (suc n) in
    (b'-', c ∷ cs, rw e, refl, (d, ds), rw e at (parse_i64-format_i64 (negsuc n) h))

-- Different numbers print differently.
pub format_u64-injective : (m n : ℕ) → format_u64 m ≡ format_u64 n → m ≡ n
format_u64-injective m n e =
    let (c, cs, p, _, _, s) = format_u64_cons m in
    let (d, ds, q, _, _, t) = format_u64_cons n in
    let same_print : c ∷ cs ≡ d ∷ ds = sym p ∙ e ∙ q in
    let same_value : some m ≡ some n = sym s ∙ ap (scan 0) same_print ∙ t in cc
