-- ===== src/Parser/RoundTrip/Reading.antt =====
-- `get_textmap` over the tokens of a printable map.
use melvin.Prelude.{
  ℕ, zero, suc, ◌<◌, ◌≡◌, refl, ap, ◌∙◌, true, [], ◌∷◌, ◌++◌, append_assoc, Bytes, All, length,
  length-append, drop, drop-append, from_utf8_lossy, from_utf8_lossy-ascii, Result, ok, ◌>>=◌,
  arith,
}
use melvin.Parser.Token.{Token}
use melvin.Parser.Lexer.{is_ident_byte}
use melvin.Parser.TextMap.{Entry, TextMap, empty, bind, insert}
use melvin.Parser.Reader.{Tokens, get_textmap, entries}
use melvin.Parser.Printable.{IsName, IsPrintable, item_tokens, tokens_onto}
use melvin.Parser.RoundTrip.Rebuilding.{inserts, inserts_lem}
use melvin.Parser.RoundTrip.Matching.{
  length-tokens_onto, drop-tokens_onto, find-curly, find-brackets, get_list-item_tokens,
  ends_with-tokens_onto,
}

name-ascii : (k : Bytes) → All (λ b. is_ident_byte b ≡ true) k → All (λ c. c < 128) k
name-ascii [] h = tt
name-ascii (c ∷ cs) (h, hs) = (ground arith, name-ascii cs hs)

pub name-utf8 : (k : Bytes) → IsName k → from_utf8_lossy k ≡ k
name-utf8 [] h = absurd h
name-utf8 (c ∷ cs) (h, hs) = from_utf8_lossy-ascii (c ∷ cs) (ground arith, name-ascii cs hs)

drop-items : (xs us : Tokens) (t : Token) → drop (length (xs ++ (t ∷ []))) (xs ++ (t ∷ us)) ≡ us
drop-items xs us t = rw (← append_assoc xs (t ∷ []) us) (drop-append (xs ++ (t ∷ [])) us)

pub get_textmap-tokens_onto :
    (f : ℕ) (t : TextMap) {r : Result TextMap}
    → entries f (tokens_onto t (Token.curly_close ∷ [])) empty ≡ r
    → get_textmap (suc f) (Token.curly_open ∷ tokens_onto t (Token.curly_close ∷ [])) ≡ r
unfolding get_textmap
get_textmap-tokens_onto f t e = rw (ends_with-tokens_onto t, get_textmap) e

-- The loop inserts the bindings of the map, and stops at its closing brace.
pub entries-tokens_onto :
    (m : TextMap) (f : ℕ) (us : Tokens) (ret : TextMap)
    → IsPrintable m
    → length (tokens_onto m []) < f
    → entries f (tokens_onto m (Token.curly_close ∷ us)) ret ≡ ok (inserts ret m)
unfolding entries
entries-tokens_onto m zero us ret p h = absurd (omega arith)
entries-tokens_onto empty (suc f) us ret p h = refl
entries-tokens_onto (bind k (Entry.string x) m) (suc f) us ret (hk, (_, e), _, p) h =
    rw (name-utf8 k hk, e)
      (entries-tokens_onto m f us (insert k (Entry.string x) ret) p (omega arith))
entries-tokens_onto (bind k (Entry.number x) m) (suc f) us ret (hk, hn, _, p) h =
    rw (name-utf8 k hk) (entries-tokens_onto m f us (insert k (Entry.number x) ret) p (omega arith))
entries-tokens_onto (bind k (Entry.list xs) m) (suc f) us ret (hk, hs, _, p) h =
    rw
      (
        name-utf8 k hk,
        find-brackets xs (tokens_onto m (Token.curly_close ∷ us)) hs,
        get_list-item_tokens xs hs,
        drop-items (item_tokens xs) (tokens_onto m (Token.curly_close ∷ us)) Token.bracket_close,
      )
      (entries-tokens_onto m f us (insert k (Entry.list xs) ret) p
        (omega (arith, length-append (item_tokens xs) (Token.bracket_close ∷ tokens_onto m []))))
entries-tokens_onto (bind k (Entry.text_map t) m) (suc zero) us ret (hk, ht, _, p) h =
    absurd (omega arith)
entries-tokens_onto (bind k (Entry.text_map t) m) (suc (suc f)) us ret (hk, ht, _, p) h =
    let short = length-tokens_onto t (Token.curly_close ∷ tokens_onto m []) in
    let behind_map =
      drop (length (tokens_onto t (Token.curly_close ∷ [])))
        (tokens_onto t (Token.curly_close ∷ tokens_onto m (Token.curly_close ∷ us))) in
    rw (name-utf8 k hk, find-curly t (tokens_onto m (Token.curly_close ∷ us)))
      (ap (λ r. r >>= λ m'. entries (suc f) behind_map (insert k (Entry.text_map m') ret))
          (get_textmap-tokens_onto f t (entries-tokens_onto t f [] empty ht (omega (arith, short))))
        ∙ rw
            (
              inserts_lem t ht,
              drop-tokens_onto t Token.curly_close (tokens_onto m (Token.curly_close ∷ us)),
            )
            (entries-tokens_onto m (suc f) us (insert k (Entry.text_map t) ret) p
              (omega (arith, short))))
