-- ===== src/Parser/Reader.antt =====
-- From tokens to a text map (src/parser.rs). Slices of tokens are lists; `&tokens[cur..]` is the
-- rest of the list, and an index past its end is a panic.
pub mod Fuel
use melvin.Prelude.{
  ℕ, zero, suc, ◌-◌, ℤ, pos, negsuc, Bool, true, false, ◌&&◌, List, [], ◌∷◌, ◌++◌, Option, none,
  some, ◌==◌, if◌then◌else◌, length, drop, slice, Bytes, from_utf8_lossy, token_mismatch,
  unexpected_in_list, unexpected_ident, unexpected_rvalue, unexpected_after_ident, Result, ok, err,
  panicked, out_of_fuel, ◌>>=◌,
}
use melvin.Parser.Token.{Token, same_token, same_int}
use melvin.Parser.Lexer.{tokenize}
use melvin.Parser.TextMap.{Entry, Entries, nil, cons, TextMap, empty, insert}

abbrev pub Tokens : Type 0
Tokens = List Token

-- `brace_count += 1` and `brace_count -= 1`
abbrev pub up : ℤ → ℤ
up (pos n) = pos (suc n)
up (negsuc zero) = pos 0
up (negsuc (suc n)) = negsuc n

abbrev pub down : ℤ → ℤ
down (pos (suc n)) = pos n
down (pos zero) = negsuc 0
down (negsuc n) = negsuc (suc n)

abbrev extend : Token → Result Tokens → Result Tokens
extend t r = r >>= λ ts. ok (t ∷ ts)

-- The loop of `find_matching_token`, with the brace count; the slice up to the match.
unfoldable pub matching : Token → Token → ℤ → Tokens → Result Tokens
matching begin end count [] = err token_mismatch
matching begin end count (x ∷ xs) =
    let count' =
      if same_token x begin then up count else if same_token x end then down count else count in
    let rest = matching begin end count' xs in
    if same_token x begin
    then extend x rest
    else if same_token x end && same_int count' (pos 0)
    then ok (x ∷ [])
    else extend x rest

unfoldable pub find_matching_token : Tokens → Token → Token → Result Tokens
unfolding matching
find_matching_token tokens begin end = matching begin end (pos 0) tokens

abbrev pub starts_with : Token → Tokens → Bool
starts_with t [] = false
starts_with t (x ∷ xs) = same_token x t

abbrev pub ends_with : Token → Tokens → Bool
ends_with t [] = false
ends_with t (x ∷ []) = same_token x t
ends_with t (x ∷ y ∷ xs) = ends_with t (y ∷ xs)

-- The tokens between the brackets of a list.
unfoldable pub list_items : Tokens → Result Entries
list_items [] = ok nil
list_items (Token.number x ∷ ts) = list_items ts >>= λ v. ok (cons (Entry.number x) v)
list_items (Token.string x ∷ ts) =
    list_items ts >>= λ v. ok (cons (Entry.string (from_utf8_lossy x)) v)
list_items (Token.comma ∷ ts) = list_items ts
list_items (_ ∷ ts) = err unexpected_in_list

-- The assertions on the first and the last token panic.
unfoldable pub get_list : Tokens → Result Entries
unfolding list_items
get_list tokens =
    if starts_with Token.bracket_open tokens && ends_with Token.bracket_close tokens
    then list_items (slice tokens 1 (length tokens - 1))
    else panicked

-- The right side of `ident =`, and the entries behind it.
unfoldable pub rvalue :
    (Tokens → TextMap → Result TextMap) → Bytes → Tokens → TextMap → Result TextMap
rvalue more ident [] ret = panicked
rvalue more ident (Token.number x ∷ ts) ret = more ts (insert ident (Entry.number x) ret)
rvalue more ident (Token.string x ∷ ts) ret =
    more ts (insert ident (Entry.string (from_utf8_lossy x)) ret)
rvalue more ident (Token.bracket_open ∷ ts) ret = do
  slc ← find_matching_token (Token.bracket_open ∷ ts) Token.bracket_open Token.bracket_close
  v ← get_list slc
  more (drop (length slc) (Token.bracket_open ∷ ts)) (insert ident (Entry.list v) ret)
rvalue more ident (_ ∷ ts) ret = err unexpected_rvalue

-- What follows an identifier: `inner` reads a nested map, `more` the entries behind this one.
unfoldable pub entry :
    (Tokens → Result TextMap)
    → (Tokens → TextMap → Result TextMap)
    → Bytes
    → Tokens
    → TextMap
    → Result TextMap
unfolding rvalue
entry inner more ident [] ret = panicked
entry inner more ident (Token.equals ∷ ts) ret = rvalue more ident ts ret
entry inner more ident (Token.curly_open ∷ ts) ret = do
  slc ← find_matching_token (Token.curly_open ∷ ts) Token.curly_open Token.curly_close
  m ← inner slc
  more (drop (length slc) (Token.curly_open ∷ ts)) (insert ident (Entry.text_map m) ret)
entry inner more ident (_ ∷ ts) ret = err unexpected_after_ident

-- `get_textmap` and its loop, on fuel: `ts` is `&tokens[cur..]`.
unfoldable mutual
  unfolding entry

  pub get_textmap : ℕ → Tokens → Result TextMap
  get_textmap zero tokens = out_of_fuel
  get_textmap (suc f) tokens =
      elim (starts_with Token.curly_open tokens && ends_with Token.curly_close tokens) [
        | true ↦ entries f (drop 1 tokens) empty
        | false ↦ panicked
      ]

  pub entries : ℕ → Tokens → TextMap → Result TextMap
  entries zero ts ret = out_of_fuel
  entries (suc f) [] ret = panicked
  entries (suc f) (Token.curly_close ∷ ts) ret = ok ret
  entries (suc f) (Token.ident x ∷ ts) ret =
      entry (get_textmap f) (entries f) (from_utf8_lossy x) ts ret
  entries (suc f) (Token.comment _ ∷ ts) ret = entries f ts ret
  entries (suc f) (_ ∷ ts) ret = err unexpected_ident

-- Each call of `get_textmap` and each round of its loop takes at least one token.
unfoldable pub read_tokens : Tokens → Result TextMap
read_tokens tokens = get_textmap (suc (length tokens)) tokens

unfoldable pub buf_to_textmap : Bytes → Result TextMap
unfolding read_tokens
buf_to_textmap buf = do
  ts ← tokenize buf
  read_tokens (Token.curly_open ∷ (ts ++ (Token.curly_close ∷ [])))
