-- ===== src/Tests/Printable.antt =====
-- A test that a text map of ASCII can be expressed by the format of src/parser.rs.
use melvin.Prelude.{
  ◌<◌, ◌≡◌, ◌≢◌, refl, Bool, true, false, not, ◌&&◌, ltb, ◌==◌, [], ◌∷◌, ℤ, pos, negsuc, two63,
  IsI64, Bytes, All, before, from_utf8_lossy-ascii, arith,
}
use melvin.Parser.Lexer.{is_ident_start, is_ident_byte}
use melvin.Parser.TextMap.{Entry, Entries, nil, cons, TextMap, empty, bind}
use melvin.Parser.TextMap.Laws.{IsAfter}
use melvin.Parser.Printable.{IsName, IsQuotable, AreItems, IsPrintable}

abbrev name_bytes : Bytes → Bool
name_bytes [] = true
name_bytes (c ∷ cs) = is_ident_byte c && name_bytes cs

abbrev is_name : Bytes → Bool
is_name [] = false
is_name (c ∷ cs) = is_ident_start c && name_bytes cs

abbrev is_quotable : Bytes → Bool
is_quotable [] = true
is_quotable (c ∷ cs) = ltb c 128 && (not (c == b'"') && is_quotable cs)

abbrev is_i64 : ℤ → Bool
is_i64 (pos n) = ltb n two63
is_i64 (negsuc n) = ltb n two63

abbrev are_items : Entries → Bool
are_items nil = true
are_items (cons (Entry.string x) xs) = is_quotable x && are_items xs
are_items (cons (Entry.number n) xs) = is_i64 n && are_items xs
are_items (cons _ xs) = false

abbrev is_after : Bytes → TextMap → Bool
is_after k empty = true
is_after k (bind j v m) = before k j && is_after k m

abbrev pub is_printable : TextMap → Bool
is_printable empty = true
is_printable (bind k (Entry.string x) m) =
    is_name k && (is_quotable x && (is_after k m && is_printable m))
is_printable (bind k (Entry.number n) m) =
    is_name k && (is_i64 n && (is_after k m && is_printable m))
is_printable (bind k (Entry.list xs) m) =
    is_name k && (are_items xs && (is_after k m && is_printable m))
is_printable (bind k (Entry.text_map t) m) =
    is_name k && (is_printable t && (is_after k m && is_printable m))

name_bytes-All : (cs : Bytes) → name_bytes cs ≡ true → All (λ b. is_ident_byte b ≡ true) cs
name_bytes-All [] h = tt
name_bytes-All (c ∷ cs) h = let rest = name_bytes-All cs (ground arith) in (ground arith, rest)

is_name-IsName : (k : Bytes) → is_name k ≡ true → IsName k
is_name-IsName [] h = absurd (ground arith)
is_name-IsName (c ∷ cs) h = (ground arith, name_bytes-All cs (ground arith))

is_quotable-All : (s : Bytes) → is_quotable s ≡ true → All (λ c. c < 128) s × All (λ c. c ≢ b'"') s
is_quotable-All [] h = (tt, tt)
is_quotable-All (c ∷ cs) h =
    let (ascii, plain) = is_quotable-All cs (ground arith) in
    ((ground arith, ascii), (ground arith, plain))

is_quotable-IsQuotable : (s : Bytes) → is_quotable s ≡ true → IsQuotable s
is_quotable-IsQuotable s h =
    let (ascii, plain) = is_quotable-All s h in (plain, from_utf8_lossy-ascii s ascii)

are_items-AreItems : (xs : Entries) → are_items xs ≡ true → AreItems xs
are_items-AreItems nil h = tt
are_items-AreItems (cons (Entry.string x) xs) h =
    (is_quotable-IsQuotable x (ground arith), are_items-AreItems xs (ground arith))
are_items-AreItems (cons (Entry.number (pos n)) xs) h =
    (ground arith, are_items-AreItems xs (ground arith))
are_items-AreItems (cons (Entry.number (negsuc n)) xs) h =
    (ground arith, are_items-AreItems xs (ground arith))
are_items-AreItems (cons (Entry.list x) xs) h = absurd (ground arith)
are_items-AreItems (cons (Entry.text_map x) xs) h = absurd (ground arith)

is_after-IsAfter : (k : Bytes) (m : TextMap) → is_after k m ≡ true → IsAfter k m
is_after-IsAfter k empty h = tt
is_after-IsAfter k (bind j v m) h = (ground arith, is_after-IsAfter k m (ground arith))

both : (a b : Bool) → (a && b) ≡ true → (a ≡ true) × (b ≡ true)
both true b h = (refl, h)
both false b h = absurd (ground arith)

is_i64-IsI64 : (z : ℤ) → is_i64 z ≡ true → IsI64 z
is_i64-IsI64 (pos n) h = ground arith
is_i64-IsI64 (negsuc n) h = ground arith

-- A key, its value and the entries behind it.
binding :
    (k : Bytes) (value : Bool) (m : TextMap)
    → (is_name k && (value && (is_after k m && is_printable m))) ≡ true
    → IsName k × (value ≡ true) × IsAfter k m × (is_printable m ≡ true)
binding k value m h =
    let (name, h1) = both (is_name k) _ h in
    let (v, h2) = both value _ h1 in
    let (after, rest) = both (is_after k m) _ h2 in
    (is_name-IsName k name, v, is_after-IsAfter k m after, rest)

pub is_printable-IsPrintable : (m : TextMap) → is_printable m ≡ true → IsPrintable m
is_printable-IsPrintable empty h = tt
is_printable-IsPrintable (bind k (Entry.string x) m) h =
    let (name, value, after, rest) = binding k (is_quotable x) m h in
    (name, is_quotable-IsQuotable x value, after, is_printable-IsPrintable m rest)
is_printable-IsPrintable (bind k (Entry.number z) m) h =
    let (name, value, after, rest) = binding k (is_i64 z) m h in
    (name, is_i64-IsI64 z value, after, is_printable-IsPrintable m rest)
is_printable-IsPrintable (bind k (Entry.list xs) m) h =
    let (name, value, after, rest) = binding k (are_items xs) m h in
    (name, are_items-AreItems xs value, after, is_printable-IsPrintable m rest)
is_printable-IsPrintable (bind k (Entry.text_map t) m) h =
    let (name, value, after, rest) = binding k (is_printable t) m h in
    (name, is_printable-IsPrintable t value, after, is_printable-IsPrintable m rest)
