-- ===== src/Prelude/Text.antt =====
-- Byte strings. A Rust `String` is the list of its UTF-8 bytes, ordered byte by byte.
use Prim.Native.Nat.{ℕ}
use Prim.Native.Char.{code}
use Prim.Native.String.{String}
use mathlib.Core.Path.{◌≡◌, refl}
use mathlib.Core.Logic.{◌↔◌}
use mathlib.Core.Bool.{Bool, true, false, ◌&&◌, ◌||◌}
use mathlib.Core.List.{List, [], ◌∷◌}
use native.Mathlib.Omega.{arith}
use melvin.Prelude.Compare.{ltb, ◌==◌}

abbrev pub Bytes : Type 0
Bytes = List ℕ

-- The bytes of an ASCII literal.
abbrev pub bytes : String → Bytes
bytes String.[] = []
bytes (String.◌∷◌ c s) = code c ∷ bytes s

unfoldable pub same : Bytes → Bytes → Bool
same [] [] = true
same (x ∷ xs) (y ∷ ys) = x == y && same xs ys
same _ _ = false

pub same_iff : (a b : Bytes) → (same a b ≡ true) ↔ (a ≡ b)
unfolding same
same_iff (x ∷ a) (y ∷ b) = ground (arith, same_iff a b)
same_iff _ _ = ground arith

pub same_refl : (a : Bytes) → same a a ≡ true
same_refl a = (same_iff a a).1 refl

-- `Ord for String`, as two tests: `before a b` is `a < b`.
unfoldable pub before : Bytes → Bytes → Bool
before [] [] = false
before [] (y ∷ ys) = true
before (x ∷ xs) [] = false
before (x ∷ xs) (y ∷ ys) = ltb x y || (x == y && before xs ys)

pub before_irrefl : (a : Bytes) → before a a ≡ false
unfolding before
before_irrefl [] = refl
before_irrefl (x ∷ a) = ground (arith, before_irrefl a)

pub before_trans : (a b c : Bytes) → before a b ≡ true → before b c ≡ true → before a c ≡ true
unfolding before
before_trans (x ∷ a) (y ∷ b) (z ∷ c) h k = ground (arith, before_trans a b c)
before_trans _ _ _ h k = ground arith

pub before_asymm :
    (a b : Bytes)
    → before a b ≡ true
    → (before b a ≡ false) × (same a b ≡ false) × (same b a ≡ false)
unfolding before same
before_asymm (x ∷ a) (y ∷ b) h = ground (arith, before_asymm a b)
before_asymm _ _ h = ground arith

pub before_total : (a b : Bytes) → before a b ≡ false → same a b ≡ false → before b a ≡ true
unfolding before same
before_total (x ∷ a) (y ∷ b) h k = ground (arith, before_total a b)
before_total _ _ h k = ground arith
