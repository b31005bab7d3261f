-- ===== src/Parser/Malformed.antt =====
-- Inputs of src/parser.rs that `textmap_to_buf` does not print.
use melvin.Prelude.{
  ℕ, suc, ◌<◌, ◌≡◌, refl, ap, ◌∙◌, true, false, [], ◌∷◌, ◌++◌, Bytes, bytes, length, drop, ok, err,
  panicked, ◌>>=◌, arith, unexpected_ident, ℤ, pos, IsI64, format_i64,
}
use melvin.Parser.Token.{Token}
use melvin.Parser.Lexer.Automaton.{between, run}
use melvin.Parser.Lexer.Refines.{tokenize-run}
use melvin.Parser.TextMap.{TextMap, Entry, empty, bind, insert}
use melvin.Parser.Reader.{Tokens, ends_with, get_textmap, entries, read_tokens, buf_to_textmap}
use melvin.Parser.Printable.{IsName, IsPrintable, tokens_onto, bytes_onto}
use melvin.Parser.RoundTrip.Lexing.{run-bytes_onto, run-name, run-number, punctuation}
use melvin.Parser.RoundTrip.Matching.{
  length-tokens_onto, ends_with-append, ends_with-tokens_onto, tokens_onto-append, find-curly,
  drop-tokens_onto,
}
use melvin.Parser.RoundTrip.Reading.{entries-tokens_onto, get_textmap-tokens_onto, name-utf8}

run-unclosed :
    (k : Bytes) (m : TextMap)
    → IsName k
    → IsPrintable m
    → run false between (k ++ (bytes " {\n" ++ bytes_onto m []))
      ≡ ok (Token.ident k ∷ Token.curly_open ∷ tokens_onto m [])
unfolding run
run-unclosed k m hk hm =
    run-name k b' ' (bytes "{\n" ++ bytes_onto m []) false hk refl
    ∙ simp (punctuation, run-bytes_onto m true [] hm)

-- The section takes the brace that was to end the file, and the loop runs past the last token.
entries-unclosed :
    (f : ℕ) (k : Bytes) (m : TextMap) (ret : TextMap)
    → IsName k
    → IsPrintable m
    → length (tokens_onto m []) < f
    → entries
        (suc (suc f))
        (Token.ident k ∷ Token.curly_open ∷ tokens_onto m (Token.curly_close ∷ []))
        ret
      ≡ panicked
unfolding entries
entries-unclosed f k m ret hk hm h =
    let left =
      drop (length (tokens_onto m (Token.curly_close ∷ [])))
        (tokens_onto m (Token.curly_close ∷ [])) in
    rw (name-utf8 k hk, find-curly m [])
      (ap (λ r. r >>= λ m'. entries (suc f) left (insert k (Entry.text_map m') ret))
          (get_textmap-tokens_onto f m (entries-tokens_onto m f [] empty hm h))
        ∙ rw (drop-tokens_onto m Token.curly_close []))

get_textmap-entries :
    (f : ℕ) (ts : Tokens)
    → ends_with Token.curly_close (Token.curly_open ∷ ts) ≡ true
    → get_textmap (suc f) (Token.curly_open ∷ ts) ≡ entries f ts empty
unfolding get_textmap
get_textmap-entries f ts e = rw (e, get_textmap)

read-unclosed :
    (k : Bytes) (m : TextMap)
    → IsName k
    → IsPrintable m
    → read_tokens (
        Token.curly_open
        ∷ Token.ident k
        ∷ Token.curly_open
        ∷ tokens_onto m (Token.curly_close ∷ []))
      ≡ panicked
unfolding read_tokens
read-unclosed k m hk hm =
    let n = length (tokens_onto m (Token.curly_close ∷ [])) in
    let read =
      entries-unclosed (suc n) k m empty hk hm
        (omega (arith, length-tokens_onto m (Token.curly_close ∷ []))) in
    get_textmap-entries (suc (suc (suc n)))
      (Token.ident k ∷ Token.curly_open ∷ tokens_onto m (Token.curly_close ∷ []))
      (ends_with-tokens_onto m)
    ∙ read

-- A file that is a name, `{` and the print of a map that the format can express, with no closing brace, makes `buf_to_textmap` panic.
pub unclosed_section-panics :
    (k : Bytes) (m : TextMap)
    → IsName k
    → IsPrintable m
    → buf_to_textmap (k ++ (bytes " {\n" ++ bytes_onto m [])) ≡ panicked
unfolding buf_to_textmap
unclosed_section-panics k m hk hm =
    rw (tokenize-run (k ++ (bytes " {\n" ++ bytes_onto m [])), run-unclosed k m hk hm)
      (rw (tokens_onto-append m [] (Token.curly_close ∷ [])) (read-unclosed k m hk hm))

entries-digit_name :
    (f : ℕ) (k : Bytes) (n d : ℤ) (ts : Tokens) (ret : TextMap)
    → entries
        (suc (suc f))
        (Token.ident k ∷ Token.equals ∷ Token.number n ∷ Token.number d ∷ ts)
        ret
      ≡ err unexpected_ident
unfolding entries
entries-digit_name f k n d ts ret = refl

read-digit_name :
    (k : Bytes) (n d : ℤ) (ts : Tokens)
    → IsName k
    → read_tokens (
        Token.curly_open
        ∷ Token.ident k
        ∷ Token.equals
        ∷ Token.number n
        ∷ Token.number d
        ∷ (ts ++ (Token.curly_close ∷ [])))
      ≡ err unexpected_ident
unfolding read_tokens
read-digit_name k n d ts hk =
    let us = Token.ident k ∷ Token.equals ∷ Token.number n ∷ Token.number d ∷ ts in
    let all = us ++ (Token.curly_close ∷ []) in
    get_textmap-entries (suc (length all)) all
      (ends_with-append Token.curly_close Token.curly_open us refl)
    ∙ entries-digit_name _ k n d (ts ++ (Token.curly_close ∷ [])) empty

-- A file with one first entry `k = n`, a name and an `i64` number, and then a section named by the decimal number `j`, an `i64` too, is
-- refused with an error where the section's name stands, if the rest of it has tokens.
pub digit_name-refused :
    (k : Bytes) (n : ℤ) (j : ℕ) (rest : Bytes) (ts : Tokens)
    → IsName k
    → IsI64 n
    → IsI64 (pos j)
    → run false between (bytes " {\n" ++ rest) ≡ ok ts
    → buf_to_textmap
        (bytes_onto (bind k (Entry.number n) empty) (format_i64 (pos j) ++ (bytes " {\n" ++ rest)))
      ≡ err unexpected_ident
unfolding buf_to_textmap
digit_name-refused k n j rest ts hk hn hj e =
    let buf =
      bytes_onto (bind k (Entry.number n) empty) (format_i64 (pos j) ++ (bytes " {\n" ++ rest)) in
    let lexed : run false between buf
        ≡ ok (Token.ident k ∷ Token.equals ∷ Token.number n ∷ Token.number (pos j) ∷ ts) =
      run-bytes_onto (bind k (Entry.number n) empty) false
        (format_i64 (pos j) ++ (bytes " {\n" ++ rest)) (hk, hn, tt, tt)
      ∙ rw (run-number (pos j) b' ' (bytes "{\n" ++ rest) hj refl, e) in
    rw (tokenize-run buf, lexed) (read-digit_name k n (pos j) ts hk)
