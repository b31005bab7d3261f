-- ===== src/Parser/RoundTrip/Matching.antt =====
-- The brackets and braces in the tokens of a printable map, as `find_matching_token` of
-- src/parser.rs meets them.
use melvin.Prelude.{
  ℕ, suc, ◌+◌, ◌-◌, ◌≡◌, refl, sym, ◌∙◌, true, false, [], ◌∷◌, ◌++◌, append_assoc, pos, length,
  length-append, drop, slice, drop-append, take-append, ◌==◌, ok, bind_ok, bind_ok_ok, arith,
}
use melvin.Parser.Token.{Token, same_token}
use melvin.Parser.TextMap.{Entry, Entries, nil, cons, TextMap, empty, bind}
use melvin.Parser.Reader.{Tokens, matching, find_matching_token, ends_with, list_items, get_list}
use melvin.Parser.Printable.{AreItems, item_token, item_tokens, tokens_onto}
use melvin.Parser.RoundTrip.Lexing.{behind}

pub tokens_onto-append :
    (m : TextMap) (us vs : Tokens) → tokens_onto m us ++ vs ≡ tokens_onto m (us ++ vs)
tokens_onto-append empty us vs = refl
tokens_onto-append (bind k (Entry.string x) m) us vs = rw (tokens_onto-append m us vs)
tokens_onto-append (bind k (Entry.number x) m) us vs = rw (tokens_onto-append m us vs)
tokens_onto-append (bind k (Entry.list x) m) us vs = simp (append_assoc, tokens_onto-append m us vs)
tokens_onto-append (bind k (Entry.text_map t) m) us vs =
    rw (tokens_onto-append t (Token.curly_close ∷ tokens_onto m us) vs, tokens_onto-append m us vs)

pub length-tokens_onto :
    (m : TextMap) (us : Tokens) → length (tokens_onto m us) ≡ length (tokens_onto m []) + length us
length-tokens_onto m us = rw (← tokens_onto-append m [] us) (length-append (tokens_onto m []) us)

pub drop-tokens_onto :
    (m : TextMap) (t : Token) (us : Tokens)
    → drop (length (tokens_onto m (t ∷ []))) (tokens_onto m (t ∷ us)) ≡ us
drop-tokens_onto m t us =
    rw (← tokens_onto-append m (t ∷ []) us) (drop-append (tokens_onto m (t ∷ [])) us)

matching-item :
    (x : Entry) (n : ℕ) (us : Tokens)
    → matching Token.curly_open Token.curly_close (pos (suc n)) (item_token x ∷ us)
      ≡ behind (◌∷◌ (item_token x)) (matching Token.curly_open Token.curly_close (pos (suc n)) us)
unfolding matching
matching-item (Entry.string x) n us = refl
matching-item _ n us = refl

matching-items :
    (xs : Entries) (n : ℕ) (us : Tokens)
    → matching Token.curly_open Token.curly_close (pos (suc n)) (item_tokens xs ++ us)
      ≡ behind
          (◌++◌ (item_tokens xs))
          (matching Token.curly_open Token.curly_close (pos (suc n)) us)
unfolding matching
matching-items nil n us = sym (bind_ok _)
matching-items (cons x nil) n us = matching-item x n us
matching-items (cons x (cons y ys)) n us =
    matching-item x n (Token.comma ∷ (item_tokens (cons y ys) ++ us))
    ∙ simp (matching-items (cons y ys) n us, bind_ok_ok)

matching-close :
    (n : ℕ) (us : Tokens)
    → matching Token.curly_open Token.curly_close (pos (suc (suc n))) (Token.curly_close ∷ us)
      ≡ behind
          (◌∷◌ Token.curly_close)
          (matching Token.curly_open Token.curly_close (pos (suc n)) us)
unfolding matching
matching-close n us = let e : (suc n == 0) ≡ false = ground arith in rw e

-- The braces of a map balance.
matching-tokens_onto :
    (m : TextMap) (n : ℕ) (us : Tokens)
    → matching Token.curly_open Token.curly_close (pos (suc n)) (tokens_onto m us)
      ≡ behind (tokens_onto m) (matching Token.curly_open Token.curly_close (pos (suc n)) us)
unfolding matching
matching-tokens_onto empty n us = sym (bind_ok _)
matching-tokens_onto (bind k (Entry.string x) m) n us =
    simp (matching-tokens_onto m n us, bind_ok_ok)
matching-tokens_onto (bind k (Entry.number x) m) n us =
    simp (matching-tokens_onto m n us, bind_ok_ok)
matching-tokens_onto (bind k (Entry.list xs) m) n us = simp (
  matching-items xs n (Token.bracket_close ∷ tokens_onto m us),
  matching-tokens_onto m n us,
  bind_ok_ok,
)
matching-tokens_onto (bind k (Entry.text_map t) m) n us =
    rw
      (
        matching-tokens_onto t (suc n) (Token.curly_close ∷ tokens_onto m us),
        matching-close n (tokens_onto m us),
        matching-tokens_onto m n us,
      )
      (simp bind_ok_ok)

pub find-curly :
    (m : TextMap) (us : Tokens)
    → find_matching_token
        (Token.curly_open ∷ tokens_onto m (Token.curly_close ∷ us))
        Token.curly_open
        Token.curly_close
      ≡ ok (Token.curly_open ∷ tokens_onto m (Token.curly_close ∷ []))
unfolding find_matching_token
find-curly m us = rw (matching-tokens_onto m 0 (Token.curly_close ∷ us))

matching-brackets :
    (xs : Entries) (us : Tokens)
    → AreItems xs
    → matching Token.bracket_open Token.bracket_close
        (pos 1)
        (item_tokens xs ++ (Token.bracket_close ∷ us))
      ≡ ok (item_tokens xs ++ (Token.bracket_close ∷ []))
unfolding matching
matching-brackets nil us h = refl
matching-brackets (cons (Entry.string x) nil) us h = refl
matching-brackets (cons (Entry.number x) nil) us h = refl
matching-brackets (cons (Entry.string x) (cons y ys)) us (h, hs) =
    rw (matching-brackets (cons y ys) us hs)
matching-brackets (cons (Entry.number x) (cons y ys)) us (h, hs) =
    rw (matching-brackets (cons y ys) us hs)
matching-brackets (cons (Entry.list x) ys) us (h, hs) = absurd h
matching-brackets (cons (Entry.text_map x) ys) us (h, hs) = absurd h

pub find-brackets :
    (xs : Entries) (us : Tokens)
    → AreItems xs
    → find_matching_token
        (Token.bracket_open ∷ (item_tokens xs ++ (Token.bracket_close ∷ us)))
        Token.bracket_open
        Token.bracket_close
      ≡ ok (Token.bracket_open ∷ (item_tokens xs ++ (Token.bracket_close ∷ [])))
unfolding find_matching_token
find-brackets xs us h = rw (matching-brackets xs us h)

list_items-item_tokens : (xs : Entries) → AreItems xs → list_items (item_tokens xs) ≡ ok xs
unfolding list_items
list_items-item_tokens nil h = refl
list_items-item_tokens (cons (Entry.string x) nil) ((_, e), hs) = rw e
list_items-item_tokens (cons (Entry.number x) nil) h = refl
list_items-item_tokens (cons (Entry.string x) (cons y ys)) ((_, e), hs) =
    rw (list_items-item_tokens (cons y ys) hs, e)
list_items-item_tokens (cons (Entry.number x) (cons y ys)) (h, hs) =
    rw (list_items-item_tokens (cons y ys) hs)
list_items-item_tokens (cons (Entry.list x) ys) (h, hs) = absurd h
list_items-item_tokens (cons (Entry.text_map x) ys) (h, hs) = absurd h

pub ends_with-append :
    (t u : Token) (us : Tokens) → same_token t t ≡ true → ends_with t (u ∷ (us ++ (t ∷ []))) ≡ true
ends_with-append t u [] h = h
ends_with-append t u (v ∷ us) h = ends_with-append t v us h

slice_inner :
    (t u : Token) (us : Tokens)
    → slice (t ∷ (us ++ (u ∷ []))) 1 (length (t ∷ (us ++ (u ∷ []))) - 1) ≡ us
slice_inner t u us =
    let e : suc (length (us ++ (u ∷ []))) - 1 - 1 ≡ length us =
      omega (arith, length-append us (u ∷ [])) in
    rw e (take-append us (u ∷ []))

pub get_list-item_tokens :
    (xs : Entries)
    → AreItems xs
    → get_list (Token.bracket_open ∷ (item_tokens xs ++ (Token.bracket_close ∷ []))) ≡ ok xs
unfolding get_list
get_list-item_tokens xs h =
    rw (ends_with-append Token.bracket_close Token.bracket_open (item_tokens xs) refl) (
      rw (slice_inner Token.bracket_open Token.bracket_close (item_tokens xs))
        (list_items-item_tokens xs h))

pub ends_with-tokens_onto :
    (m : TextMap)
    → ends_with Token.curly_close (Token.curly_open ∷ tokens_onto m (Token.curly_close ∷ [])) ≡ true
ends_with-tokens_onto m =
    rw (← tokens_onto-append m [] (Token.curly_close ∷ []))
      (ends_with-append Token.curly_close Token.curly_open (tokens_onto m []) refl)
