-- ===== src/Parser/RoundTrip/Lexing.antt =====
-- The lexer's automaton over the bytes that `textmap_to_buf` prints.
use melvin.Prelude.{
  ℕ, ◌≡◌, ◌≢◌, refl, sym, ◌∙◌, Bool, true, false, List, [], ◌∷◌, ◌++◌, append_assoc, append-nil,
  some, ◌||◌, Bytes, All, ◌==◌, ℤ, IsI64, is_digit, parse_i64, format_i64, format_i64_cons,
  from_utf8_lossy, from_utf8_lossy-ascii, Result, ok, ◌>>=◌, bind_ok, bind_ok_ok, arith, ◌<◌,
}
use melvin.Parser.Token.{Token}
use melvin.Parser.Lexer.{is_ident_start, is_ident_byte}
use melvin.Parser.Lexer.Automaton.{State, between, open_token, run}
use melvin.Parser.TextMap.{Entry, Entries, nil, cons, TextMap, empty, bind}
use melvin.Parser.Printable.{
  IsName, IsItem, AreItems, IsPrintable, item_token, item_tokens, tokens_onto, item_bytes,
  items_bytes, bytes_onto,
}

-- What `r` yields, behind the tokens that `f` puts in front.
abbrev pub behind : (List Token → List Token) → Result (List Token) → Result (List Token)
behind f r = r >>= λ us. ok (f us)

run-in_ident :
    (cs b : Bytes) (c : ℕ) (rest : Bytes) (flag : Bool)
    → All (λ b. is_ident_byte b ≡ true) cs
    → is_ident_byte c ≡ false
    → run flag (State.in_ident b) (cs ++ (c ∷ rest))
      ≡ behind (◌∷◌ (Token.ident (b ++ cs))) (run false between (c ∷ rest))
unfolding run
run-in_ident [] b c rest flag h e =
    rw (e, append-nil b)
      (sym (
        bind_ok_ok (run (open_token false c).1 (open_token false c).2 rest)
          (λ ts. (open_token false c).0 ++ ts) (◌∷◌ (Token.ident b))))
run-in_ident (d ∷ cs) b c rest flag (h, hs) e =
    rw h (bind_ok _ ∙ run-in_ident cs (b ++ d ∷ []) c rest flag hs e ∙ rw append_assoc)

open_name :
    (flag : Bool) (d : ℕ)
    → is_ident_start d ≡ true
    → open_token flag d ≡ ([], flag, State.in_ident (d ∷ []))
unfolding open_token
open_name flag d h = ground arith

-- A name is one token, and a number may follow it.
pub run-name :
    (k : Bytes) (c : ℕ) (rest : Bytes) (flag : Bool)
    → IsName k
    → is_ident_byte c ≡ false
    → run flag between (k ++ (c ∷ rest))
      ≡ behind (◌∷◌ (Token.ident k)) (run false between (c ∷ rest))
unfolding run
run-name [] c rest flag h e = absurd h
run-name (d ∷ cs) c rest flag (h, hs) e =
    rw (open_name flag d h) (bind_ok _ ∙ run-in_ident cs (d ∷ []) c rest flag hs e)

run-in_string :
    (x b rest : Bytes) (flag : Bool)
    → All (λ c. c ≢ b'"') x
    → run flag (State.in_string b) (x ++ (b'"' ∷ rest))
      ≡ behind (◌∷◌ (Token.string (b ++ x))) (run flag between rest)
unfolding run
run-in_string [] b rest flag h = rw (append-nil b)
run-in_string (c ∷ x) b rest flag (h, hs) =
    let e : (c == b'"') ≡ false = ground arith in
    rw e (bind_ok _ ∙ run-in_string x (b ++ c ∷ []) rest flag hs ∙ rw append_assoc)

run-string :
    (x rest : Bytes) (flag : Bool)
    → All (λ c. c ≢ b'"') x
    → run flag between (b'"' ∷ (x ++ (b'"' ∷ rest)))
      ≡ behind (◌∷◌ (Token.string x)) (run flag between rest)
unfolding run open_token
run-string x rest flag h = bind_ok _ ∙ run-in_string x [] rest flag h

run-in_number :
    (cs b : Bytes) (n : ℤ) (c : ℕ) (rest : Bytes) (flag : Bool)
    → All (λ b. is_digit b ≡ true) cs
    → is_digit c ≡ false
    → parse_i64 (from_utf8_lossy (b ++ cs)) ≡ some n
    → run flag (State.in_number b) (cs ++ (c ∷ rest))
      ≡ behind (◌∷◌ (Token.number n)) (run flag between (c ∷ rest))
unfolding run
run-in_number [] b n c rest flag h e p =
    rw (e, rw append-nil at p)
      (sym (
        bind_ok_ok (run (open_token flag c).1 (open_token flag c).2 rest)
          (λ ts. (open_token flag c).0 ++ ts) (◌∷◌ (Token.number n))))
run-in_number (d ∷ cs) b n c rest flag (h, hs) e p =
    rw h (bind_ok _ ∙ run-in_number cs (b ++ d ∷ []) n c rest flag hs e (rw append_assoc p))

open_number :
    (d : ℕ)
    → (is_digit d || d == b'-') ≡ true
    → open_token false d ≡ ([], false, State.in_number (d ∷ []))
unfolding open_token
open_number d h = ground arith

digits-ascii : (cs : Bytes) → All (λ b. is_digit b ≡ true) cs → All (λ c. c < 128) cs
digits-ascii [] h = tt
digits-ascii (c ∷ cs) (h, hs) = (ground arith, digits-ascii cs hs)

pub run-digits :
    (d : ℕ) (cs : Bytes) (n : ℤ) (c : ℕ) (rest : Bytes)
    → (is_digit d || d == b'-') ≡ true
    → All (λ b. is_digit b ≡ true) cs
    → is_digit c ≡ false
    → parse_i64 (d ∷ cs) ≡ some n
    → run false between (d ∷ (cs ++ (c ∷ rest)))
      ≡ behind (◌∷◌ (Token.number n)) (run false between (c ∷ rest))
unfolding run
run-digits d cs n c rest h hs e p = rw (open_number d h) (
    bind_ok _
    ∙ run-in_number cs (d ∷ []) n c rest false hs e
        (rw (from_utf8_lossy-ascii (d ∷ cs) (ground arith, digits-ascii cs hs)) p))

-- A printed number that no digit follows is one token.
pub run-number :
    (n : ℤ) (c : ℕ) (rest : Bytes)
    → IsI64 n
    → is_digit c ≡ false
    → run false between (format_i64 n ++ (c ∷ rest))
      ≡ behind (◌∷◌ (Token.number n)) (run false between (c ∷ rest))
run-number n c rest h e =
    let (d, cs, p, hd, hs, parsed) = format_i64_cons n h in
    rw p (run-digits d cs n c rest hd hs e parsed)

-- The pieces of punctuation.
pub run-space :
    (flag : Bool) (rest : Bytes) → run flag between (b' ' ∷ rest) ≡ run flag between rest
unfolding run open_token
run-space flag rest = bind_ok _

pub run-newline :
    (flag : Bool) (rest : Bytes) → run flag between (b'\n' ∷ rest) ≡ run flag between rest
unfolding run open_token
run-newline flag rest = bind_ok _

pub run-equals :
    (flag : Bool) (rest : Bytes)
    → run flag between (b'=' ∷ rest) ≡ behind (◌∷◌ Token.equals) (run flag between rest)
unfolding run open_token
run-equals flag rest = refl

pub run-comma :
    (flag : Bool) (rest : Bytes)
    → run flag between (b',' ∷ rest) ≡ behind (◌∷◌ Token.comma) (run flag between rest)
unfolding run open_token
run-comma flag rest = refl

pub run-bracket_open :
    (flag : Bool) (rest : Bytes)
    → run flag between (b'[' ∷ rest) ≡ behind (◌∷◌ Token.bracket_open) (run flag between rest)
unfolding run open_token
run-bracket_open flag rest = refl

pub run-bracket_close :
    (flag : Bool) (rest : Bytes)
    → run flag between (b']' ∷ rest) ≡ behind (◌∷◌ Token.bracket_close) (run flag between rest)
unfolding run open_token
run-bracket_close flag rest = refl

pub run-curly_open :
    (flag : Bool) (rest : Bytes)
    → run flag between (b'{' ∷ rest) ≡ behind (◌∷◌ Token.curly_open) (run true between rest)
unfolding run open_token
run-curly_open flag rest = refl

pub run-curly_close :
    (flag : Bool) (rest : Bytes)
    → run flag between (b'}' ∷ rest) ≡ behind (◌∷◌ Token.curly_close) (run flag between rest)
unfolding run open_token
run-curly_close flag rest = refl

pub ruleset punctuation = (
  run-space, run-newline, run-equals, run-comma, run-bracket_open, run-bracket_close,
  run-curly_open, run-curly_close,
)

run-item :
    (x : Entry) (c : ℕ) (rest : Bytes)
    → IsItem x
    → is_digit c ≡ false
    → run false between (item_bytes x ++ (c ∷ rest))
      ≡ behind (◌∷◌ (item_token x)) (run false between (c ∷ rest))
run-item (Entry.string x) c rest (h, _) e =
    rw (append_assoc x (b'"' ∷ []) (c ∷ rest)) (run-string x (c ∷ rest) false h)
run-item (Entry.number n) c rest h e = run-number n c rest h e
run-item (Entry.list x) c rest h e = absurd h
run-item (Entry.text_map x) c rest h e = absurd h

run-items :
    (xs : Entries) (c : ℕ) (rest : Bytes)
    → AreItems xs
    → is_digit c ≡ false
    → run false between (items_bytes xs (c ∷ rest))
      ≡ behind (◌++◌ (item_tokens xs)) (run false between (c ∷ rest))
run-items nil c rest h e = sym (bind_ok _)
run-items (cons x nil) c rest (h, _) e = run-item x c rest h e
run-items (cons x (cons y ys)) c rest (h, hs) e =
    run-item x b',' _ h refl ∙ simp (punctuation, run-items (cons y ys) c rest hs e, bind_ok_ok)

-- The lexer's flag behind the map.
abbrev flag_after : Bool → TextMap → Bool
flag_after flag empty = flag
flag_after flag (bind k (Entry.text_map t) m) = flag_after (flag_after true t) m
flag_after flag (bind k _ m) = flag_after false m

-- The bytes of a map are lexed to its tokens.
pub run-bytes_onto :
    (m : TextMap) (flag : Bool) (rest : Bytes)
    → IsPrintable m
    → run flag between (bytes_onto m rest)
      ≡ behind (tokens_onto m) (run (flag_after flag m) between rest)
run-bytes_onto empty flag rest h = sym (bind_ok _)
run-bytes_onto (bind k (Entry.string x) m) flag rest (hk, (hx, _), _, hm) =
    run-name k b' ' _ flag hk refl
    ∙ simp (punctuation, run-string x _ false hx, run-bytes_onto m false rest hm, bind_ok_ok)
run-bytes_onto (bind k (Entry.number n) m) flag rest (hk, hn, _, hm) =
    run-name k b' ' _ flag hk refl
    ∙ simp (punctuation, run-number n b'\n' _ hn refl, run-bytes_onto m false rest hm, bind_ok_ok)
run-bytes_onto (bind k (Entry.list xs) m) flag rest (hk, hs, _, hm) =
    run-name k b' ' _ flag hk refl
    ∙ simp (punctuation, run-items xs b']' _ hs refl, run-bytes_onto m false rest hm, bind_ok_ok)
run-bytes_onto (bind k (Entry.text_map t) m) flag rest (hk, ht, _, hm) =
    run-name k b' ' _ flag hk refl
    ∙ simp (punctuation, run-bytes_onto t true _ ht, run-bytes_onto m _ rest hm, bind_ok_ok)
