-- ===== src/Prelude/Utf8.antt =====
-- `String::from_utf8_lossy` of the standard library: the longest prefix of a well-formed sequence
-- that cannot be continued becomes U+FFFD.
use mathlib.Core.Path.{◌≡◌, refl, ap}
use mathlib.Core.Bool.{Bool, ◌&&◌}
use mathlib.Core.List.{List, [], ◌∷◌, ◌++◌}
use native.Mathlib.Omega.{arith}
use Prim.Native.Nat.{ℕ, zero, suc, ◌<◌}
use melvin.Prelude.Compare.{leb, ltb, ◌==◌, if◌then◌else◌}
use melvin.Prelude.Text.{Bytes}

-- What a decoder waits for: `pending` is the sequence so far, the next byte has to lie in
-- `lo`..`hi`, and `more` bytes follow that one.
pub data Decoder : Type 0 where
  start : Decoder
  within_char : Bytes → ℕ → ℕ → ℕ → Decoder

abbrev pub replacement : Bytes
replacement = 0xef ∷ 0xbf ∷ 0xbd ∷ []

abbrev pub within : ℕ → ℕ → ℕ → Bool
within lo hi c = leb lo c && leb c hi

-- A first byte: what it puts out, and the state behind it.
abbrev first_byte : ℕ → Bytes × Decoder
first_byte a =
    if ltb a 128
    then (a ∷ [], start)
    else if within 0xc2 0xdf a
    then ([], within_char (a ∷ []) 0x80 0xbf 0)
    else if a == 0xe0
    then ([], within_char (a ∷ []) 0xa0 0xbf 1)
    else if a == 0xed
    then ([], within_char (a ∷ []) 0x80 0x9f 1)
    else if within 0xe1 0xef a
    then ([], within_char (a ∷ []) 0x80 0xbf 1)
    else if a == 0xf0
    then ([], within_char (a ∷ []) 0x90 0xbf 2)
    else if within 0xf1 0xf3 a
    then ([], within_char (a ∷ []) 0x80 0xbf 2)
    else if a == 0xf4
    then ([], within_char (a ∷ []) 0x80 0x8f 2)
    else (replacement, start)

abbrev next_state : Bytes → ℕ → Bytes × Decoder
next_state pending zero = (pending, start)
next_state pending (suc more) = ([], within_char pending 0x80 0xbf more)

decode_byte : Decoder → ℕ → Bytes × Decoder
decode_byte start a = first_byte a
decode_byte (within_char pending lo hi more) a =
    if within lo hi a
    then next_state (pending ++ a ∷ []) more
    else let (out, d) = first_byte a in (replacement ++ out, d)

abbrev at_end : Decoder → Bytes
at_end start = []
at_end (within_char _ _ _ _) = replacement

decode : Decoder → Bytes → Bytes
decode d [] = at_end d
decode d (a ∷ rest) = (decode_byte d a).0 ++ decode (decode_byte d a).1 rest

unfoldable pub from_utf8_lossy : Bytes → Bytes
unfolding decode decode_byte
from_utf8_lossy = decode start

abbrev pub All {ℓ κ} : {A : Type κ} → (A → Type ℓ) → List A → Type ℓ
All P [] = Unit
All P (c ∷ cs) = P c × All P cs

decode-ascii : (c : ℕ) → c < 128 → decode_byte start c ≡ (c ∷ [], start)
unfolding decode_byte
decode-ascii c h = ground arith

-- ASCII bytes stay as they are.
pub from_utf8_lossy-ascii : (s : Bytes) → All (λ c. c < 128) s → from_utf8_lossy s ≡ s
unfolding decode from_utf8_lossy
from_utf8_lossy-ascii [] h = refl
from_utf8_lossy-ascii (c ∷ cs) (h, hs) =
    rw (decode-ascii c h) (ap (◌∷◌ c) (from_utf8_lossy-ascii cs hs))

-- A two-byte character, a stray continuation byte, and a cut sequence before an ASCII byte.
lossy_runs :
    (from_utf8_lossy (0xc3 ∷ 0xa9 ∷ []) ≡ 0xc3 ∷ 0xa9 ∷ [])
    × (from_utf8_lossy (0x80 ∷ []) ≡ replacement)
    × (from_utf8_lossy (0xe2 ∷ 0x82 ∷ 65 ∷ []) ≡ replacement ++ 65 ∷ [])
unfolding from_utf8_lossy
lossy_runs = (refl, refl, refl)
