-- ===== src/Parser/Printable.antt =====
-- The text maps that the format of src/parser.rs can express, and their tokens.
use melvin.Prelude.{
  ◌≡◌, ◌≢◌, refl, true, List, [], ◌∷◌, ◌++◌, append_assoc, Bytes, bytes, All, IsI64,
  from_utf8_lossy, format_i64, Result, ok,
}
use melvin.Parser.Token.{Token}
use melvin.Parser.Lexer.{is_ident_start, is_ident_byte}
use melvin.Parser.TextMap.{Entry, Entries, nil, cons, TextMap, empty, bind}
use melvin.Parser.TextMap.Laws.{IsAfter}
use melvin.Parser.Printer.{textmap_to_buf, items_to_bufs, item_to_buf, join}

-- A letter, `_` or `.`, then name bytes.
abbrev pub IsName : Bytes → Type 0
IsName [] = ⊥
IsName (c ∷ cs) = (is_ident_start c ≡ true) × All (λ b. is_ident_byte b ≡ true) cs

-- UTF-8 text with no quote in it: the format has no escapes.
abbrev pub IsQuotable : Bytes → Type 0
IsQuotable s = All (λ c. c ≢ b'"') s × (from_utf8_lossy s ≡ s)

abbrev pub IsItem : Entry → Type 0
IsItem (Entry.string x) = IsQuotable x
IsItem (Entry.number n) = IsI64 n
IsItem _ = ⊥

abbrev pub AreItems : Entries → Type 0
AreItems nil = Unit
AreItems (cons x xs) = IsItem x × AreItems xs

-- Names for keys, in ascending order; lists of strings and numbers.
abbrev pub IsPrintable : TextMap → Type 0
IsPrintable empty = Unit
IsPrintable (bind k (Entry.string x) m) = IsName k × IsQuotable x × IsAfter k m × IsPrintable m
IsPrintable (bind k (Entry.number n) m) = IsName k × IsI64 n × IsAfter k m × IsPrintable m
IsPrintable (bind k (Entry.list xs) m) = IsName k × AreItems xs × IsAfter k m × IsPrintable m
IsPrintable (bind k (Entry.text_map t) m) = IsName k × IsPrintable t × IsAfter k m × IsPrintable m

abbrev pub item_token : Entry → Token
item_token (Entry.string x) = Token.string x
item_token (Entry.number n) = Token.number n
item_token _ = Token.invalid 0

abbrev pub item_tokens : Entries → List Token
item_tokens nil = []
item_tokens (cons x nil) = item_token x ∷ []
item_tokens (cons x (cons y ys)) = item_token x ∷ Token.comma ∷ item_tokens (cons y ys)

-- The tokens of a map, in front of `rest`.
abbrev pub tokens_onto : TextMap → List Token → List Token
tokens_onto empty rest = rest
tokens_onto (bind k (Entry.string x) m) rest =
    Token.ident k ∷ Token.equals ∷ Token.string x ∷ tokens_onto m rest
tokens_onto (bind k (Entry.number n) m) rest =
    Token.ident k ∷ Token.equals ∷ Token.number n ∷ tokens_onto m rest
tokens_onto (bind k (Entry.list xs) m) rest =
    Token.ident k
    ∷ Token.equals
    ∷ Token.bracket_open
    ∷ (item_tokens xs ++ (Token.bracket_close ∷ tokens_onto m rest))
tokens_onto (bind k (Entry.text_map t) m) rest =
    Token.ident k ∷ Token.curly_open ∷ tokens_onto t (Token.curly_close ∷ tokens_onto m rest)

abbrev pub item_bytes : Entry → Bytes
item_bytes (Entry.string x) = b'"' ∷ (x ++ (b'"' ∷ []))
item_bytes (Entry.number n) = format_i64 n
item_bytes _ = []

abbrev pub items_bytes : Entries → Bytes → Bytes
items_bytes nil rest = rest
items_bytes (cons x nil) rest = item_bytes x ++ rest
items_bytes (cons x (cons y ys)) rest = item_bytes x ++ (b',' ∷ b' ' ∷ items_bytes (cons y ys) rest)

-- What `textmap_to_buf` prints, in front of `rest`.
abbrev pub bytes_onto : TextMap → Bytes → Bytes
bytes_onto empty rest = rest
bytes_onto (bind k (Entry.string x) m) rest =
    k ++ (bytes " = \"" ++ (x ++ (bytes "\"\n" ++ bytes_onto m rest)))
bytes_onto (bind k (Entry.number n) m) rest =
    k ++ (bytes " = " ++ (format_i64 n ++ (bytes "\n" ++ bytes_onto m rest)))
bytes_onto (bind k (Entry.list xs) m) rest =
    k ++ (bytes " = [" ++ items_bytes xs (bytes "]\n" ++ bytes_onto m rest))
bytes_onto (bind k (Entry.text_map t) m) rest =
    k ++ (bytes " {\n" ++ bytes_onto t (bytes "}\n" ++ bytes_onto m rest))

-- A call that returns bytes which, in front of any `rest`, are `onto rest`.
abbrev pub Prints : Result Bytes → (Bytes → Bytes) → Type 0
Prints r onto = (b : Bytes) × (r ≡ ok b) × ((rest : Bytes) → b ++ rest ≡ onto rest)

item_to_buf_lem : (x : Entry) → IsItem x → item_to_buf x ≡ ok (item_bytes x)
unfolding item_to_buf
item_to_buf_lem (Entry.string x) h = refl
item_to_buf_lem (Entry.number n) h = refl
item_to_buf_lem (Entry.list x) h = absurd h
item_to_buf_lem (Entry.text_map x) h = absurd h

items-print_cons :
    (x : Entry) (xs : Entries)
    → IsItem x
    → AreItems xs
    → (bs : List Bytes) × (items_to_bufs (cons x xs) ≡ ok (item_bytes x ∷ bs))
      × ((rest : Bytes)
          → join (bytes ", ") (item_bytes x ∷ bs) ++ rest ≡ items_bytes (cons x xs) rest)
unfolding items_to_bufs join
items-print_cons x nil h hs = ([], rw (item_to_buf_lem x h), λ rest. refl)
items-print_cons x (cons y ys) h (hy, hs) =
    let (bs, e, g) = items-print_cons y ys hy hs in
    (item_bytes y ∷ bs, rw (item_to_buf_lem x h, e), λ rest. simp (append_assoc, g))

items-print :
    (xs : Entries)
    → AreItems xs
    → (bs : List Bytes) × (items_to_bufs xs ≡ ok bs)
      × ((rest : Bytes) → join (bytes ", ") bs ++ rest ≡ items_bytes xs rest)
unfolding items_to_bufs join
items-print nil h = ([], refl, λ rest. refl)
items-print (cons x xs) (h, hs) =
    let (bs, e, g) = items-print_cons x xs h hs in (item_bytes x ∷ bs, e, g)

-- `textmap_to_buf` returns the bytes of every printable map.
pub textmap-Prints : (m : TextMap) → IsPrintable m → Prints (textmap_to_buf m) (bytes_onto m)
unfolding textmap_to_buf
textmap-Prints empty h = ([], refl, λ rest. refl)
textmap-Prints (bind k (Entry.string x) m) (hk, hx, ha, hm) =
    let (b, e, g) = textmap-Prints m hm in
    (k ++ (bytes " = \"" ++ (x ++ (bytes "\"\n" ++ b))), rw e, λ rest. simp (append_assoc, g))
textmap-Prints (bind k (Entry.number n) m) (hk, hn, ha, hm) =
    let (b, e, g) = textmap-Prints m hm in
    (
      k ++ (bytes " = " ++ (format_i64 n ++ (bytes "\n" ++ b))),
      rw e,
      λ rest. simp (append_assoc, g),
    )
textmap-Prints (bind k (Entry.list xs) m) (hk, hs, ha, hm) =
    let (b, e, g) = textmap-Prints m hm in
    let (z, ez, gz) = items-print xs hs in
    (
      k ++ (bytes " = [" ++ (join (bytes ", ") z ++ (bytes "]\n" ++ b))),
      rw (ez, e),
      λ rest. simp append_assoc (rw (gz, g)),
    )
textmap-Prints (bind k (Entry.text_map t) m) (hk, ht, ha, hm) =
    let (b, e, g) = textmap-Prints m hm in
    let (i, ei, gi) = textmap-Prints t ht in
    (
      k ++ (bytes " {\n" ++ (i ++ (bytes "}\n" ++ b))),
      rw (ei, e),
      λ rest. simp append_assoc (rw (gi, g)),
    )
