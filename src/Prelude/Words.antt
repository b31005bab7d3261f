-- ===== src/Prelude/Words.antt =====
-- `str::split_whitespace` of the standard library, on the bytes of the text.
use mathlib.Core.Bool.{◌&&◌, ◌||◌}
use mathlib.Core.List.{List, [], ◌∷◌, ◌++◌}
use mathlib.Core.Path.{◌≡◌, refl}
use native.Mathlib.Omega.{arith}
use Prim.Native.Nat.{ℕ, zero, suc, pred, ◌<◌}
use melvin.Prelude.Compare.{◌==◌, if◌then◌else◌}
use melvin.Prelude.Text.{Bytes, bytes}
use melvin.Prelude.Utf8.{within, All}

-- How many bytes the `White_Space` character in front takes, 0 if there is none: tab to carriage
-- return, the space, U+0085, U+00A0, U+1680, U+2000 to U+200A, U+2028, U+2029, U+202F, U+205F and
-- U+3000.
abbrev white : Bytes → ℕ
white [] = 0
white (a ∷ []) = if within 9 13 a || a == 32 then 1 else 0
white (a ∷ b ∷ []) =
    if within 9 13 a || a == 32 then 1 else if a == 0xc2 && (b == 0x85 || b == 0xa0) then 2 else 0
white (a ∷ b ∷ c ∷ cs) =
    if within 9 13 a || a == 32
    then 1
    else if a == 0xc2 && (b == 0x85 || b == 0xa0)
    then 2
    else if (a == 0xe1 && (b == 0x9a && c == 0x80))
        || ((a == 0xe2 && (b == 0x80 && (within 0x80 0x8a c || (within 0xa8 0xa9 c || c == 0xaf))))
            || ((a == 0xe2 && (b == 0x81 && c == 0x9f)) || (a == 0xe3 && (b == 0x80 && c == 0x80))))
    then 3
    else 0

-- An empty word is none.
abbrev add_word : Bytes → List Bytes → List Bytes
add_word [] ws = ws
add_word (c ∷ w) ws = (c ∷ w) ∷ ws

abbrev add_byte : ℕ → ℕ → Bytes × List Bytes → Bytes × List Bytes
add_byte c zero (w, ws) = (c ∷ w, ws)
add_byte c (suc n) (w, ws) = ([], add_word w ws)

-- The word that the text begins with, and the words behind it; the first `skip` bytes belong to a
-- white space.
words_from : ℕ → Bytes → Bytes × List Bytes
words_from skip [] = ([], [])
words_from (suc skip) (c ∷ cs) = words_from skip cs
words_from zero (c ∷ cs) =
    let n = white (c ∷ cs) in let rest = words_from (pred n) cs in add_byte c n rest

unfoldable pub split_whitespace : Bytes → List Bytes
unfolding words_from
split_whitespace s = let (w, ws) = words_from zero s in add_word w ws

runs :
    (split_whitespace (bytes "  8   1  1048576 sda1")
      ≡ bytes "8" ∷ bytes "1" ∷ bytes "1048576" ∷ bytes "sda1" ∷ [])
    × (split_whitespace (b'a' ∷ 0xc2 ∷ 0xa0 ∷ b'b' ∷ []) ≡ bytes "a" ∷ bytes "b" ∷ [])
    × (split_whitespace [] ≡ [])
unfolding split_whitespace
runs = (refl, refl, refl)

-- Bytes of printable ASCII.
abbrev pub IsPlain : Bytes → Type 0
IsPlain w = All (λ c. (32 < c) × (c < 128)) w

abbrev pub spaces : ℕ → Bytes → Bytes
spaces zero s = s
spaces (suc n) s = 32 ∷ spaces n s

plain_white : (c : ℕ) (cs : Bytes) → 32 < c → c < 128 → white (c ∷ cs) ≡ 0
plain_white c [] lo hi = ground arith
plain_white c (b ∷ []) lo hi = ground arith
plain_white c (b ∷ d ∷ cs) lo hi = ground arith

space_white : (cs : Bytes) → white (32 ∷ cs) ≡ 1
space_white [] = refl
space_white (b ∷ []) = refl
space_white (b ∷ d ∷ cs) = refl

pub split_whitespace-spaces :
    (n : ℕ) (s : Bytes) → split_whitespace (spaces n s) ≡ split_whitespace s
unfolding split_whitespace
split_whitespace-spaces zero s = refl
split_whitespace-spaces (suc n) s = rw (space_white (spaces n s)) (split_whitespace-spaces n s)

words_from_plain :
    (w s : Bytes) → IsPlain w → words_from zero (w ++ 32 ∷ s) ≡ (w, split_whitespace s)
unfolding words_from split_whitespace
words_from_plain [] s h = rw (space_white s) refl
words_from_plain (c ∷ w) s ((lo, hi), h) =
    rw (plain_white c (w ++ 32 ∷ s) lo hi, words_from_plain w s h) refl

pub split_whitespace_word :
    (c : ℕ) (w s : Bytes)
    → IsPlain (c ∷ w)
    → split_whitespace ((c ∷ w) ++ 32 ∷ s) ≡ (c ∷ w) ∷ split_whitespace s
unfolding split_whitespace
split_whitespace_word c w s h = rw (words_from_plain (c ∷ w) s h) refl

last_word : (w : Bytes) → IsPlain w → words_from zero w ≡ (w, [])
unfolding words_from
last_word [] h = refl
last_word (c ∷ w) ((lo, hi), h) = rw (plain_white c w lo hi, last_word w h) refl

pub split_whitespace_last :
    (c : ℕ) (w : Bytes) → IsPlain (c ∷ w) → split_whitespace (c ∷ w) ≡ (c ∷ w) ∷ []
unfolding split_whitespace
split_whitespace_last c w h = rw (last_word (c ∷ w) h) refl
