-- ===== src/Parser/Reader/Fuel.antt =====
-- On the termination of the reader of src/parser.rs, and the fuel of its model.
use melvin.Prelude.{
  ℕ, zero, suc, ◌-◌, ◌<◌, ◌≤◌, ◌≡◌, ◌≢◌, refl, ap, Bool, true, false, ◌&&◌, [], ◌∷◌, ◌++◌, ℤ, pos,
  length, length-drop, drop, slice, Bytes, from_utf8_lossy, if◌then◌else◌, Result, ok, out_of_fuel,
  panicked, ◌>>=◌, bind-ne-out_of_fuel, arith, none, some, Option, unwrap, parse_i64, is_digit,
}
use melvin.Parser.Token.{Token, same_token, same_int}
use melvin.Parser.Lexer.Automaton.{State, between, Move, move, run, open_token, close_token}
use melvin.Parser.Lexer.Refines.{tokenize-run}
use melvin.Parser.TextMap.{TextMap, Entries, Entry, empty, insert}
use melvin.Parser.Reader.{
  Tokens, up, down, matching, find_matching_token, starts_with, ends_with, list_items, get_list,
  rvalue, entry, get_textmap, entries, read_tokens, buf_to_textmap,
}

-- One round of the search for the match: the token in front of the slice, or the last one.
abbrev matched : Bool → Bool → Token → Result Tokens → Result Tokens
matched opens closes x r =
    if opens
    then (r >>= λ ts. ok (x ∷ ts))
    else if closes
    then ok (x ∷ [])
    else (r >>= λ ts. ok (x ∷ ts))

abbrev FitsIn : ℕ → Result Tokens → Type 0
FitsIn n r = (slc : Tokens) → r ≡ ok slc → (length slc ≤ n) × (1 ≤ length slc)

abbrev slice_of : Result Tokens → Tokens
slice_of (ok us) = us
slice_of _ = []

extend-FitsIn :
    (n : ℕ) (x : Token) (r : Result Tokens) → FitsIn n r → FitsIn (suc n) (r >>= λ ts. ok (x ∷ ts))
extend-FitsIn n x (ok ts) h slc e =
    let (le, _) = h ts refl in
    let same_length : suc (length ts) ≡ length slc = ap (λ r. length (slice_of r)) e in
    (omega arith, omega arith)
extend-FitsIn n x _ h slc e = cc

matched-FitsIn :
    (opens closes : Bool) (n : ℕ) (x : Token) (r : Result Tokens)
    → FitsIn n r
    → FitsIn (suc n) (matched opens closes x r)
matched-FitsIn true closes n x r h slc e = extend-FitsIn n x r h slc e
matched-FitsIn false true n x r h slc e =
    let same_length : 1 ≡ length slc = ap (λ r. length (slice_of r)) e in (omega arith, omega arith)
matched-FitsIn false false n x r h slc e = extend-FitsIn n x r h slc e

matched-ne :
    (opens closes : Bool) (x : Token) (r : Result Tokens)
    → r ≢ out_of_fuel
    → matched opens closes x r ≢ out_of_fuel
matched-ne true closes x r h = bind-ne-out_of_fuel r (λ ts. ok (x ∷ ts)) h (λ ts e. cc)
matched-ne false true x r h = cc
matched-ne false false x r h = bind-ne-out_of_fuel r (λ ts. ok (x ∷ ts)) h (λ ts e. cc)

matching-FitsIn :
    (begin end : Token) (count : ℤ) (xs : Tokens) → FitsIn (length xs) (matching begin end count xs)
unfolding matching
matching-FitsIn begin end count [] slc e = cc
matching-FitsIn begin end count (x ∷ xs) slc e =
    let count' =
      if same_token x begin then up count else if same_token x end then down count else count in
    matched-FitsIn (same_token x begin) (same_token x end && same_int count' (pos 0)) (length xs) x
      (matching begin end count' xs) (matching-FitsIn begin end count' xs) slc e

matching-ne :
    (begin end : Token) (count : ℤ) (xs : Tokens) → matching begin end count xs ≢ out_of_fuel
unfolding matching
matching-ne begin end count [] = cc
matching-ne begin end count (x ∷ xs) =
    let count' =
      if same_token x begin then up count else if same_token x end then down count else count in
    matched-ne (same_token x begin) (same_token x end && same_int count' (pos 0)) x
      (matching begin end count' xs) (matching-ne begin end count' xs)

list_items-ne : (ts : Tokens) → list_items ts ≢ out_of_fuel
unfolding list_items
list_items-ne [] = cc
list_items-ne (Token.number x ∷ ts) =
    bind-ne-out_of_fuel (list_items ts) _ (list_items-ne ts) (λ v e. cc)
list_items-ne (Token.string x ∷ ts) =
    bind-ne-out_of_fuel (list_items ts) _ (list_items-ne ts) (λ v e. cc)
list_items-ne (Token.comma ∷ ts) = list_items-ne ts
list_items-ne (_ ∷ ts) = cc

if-ne :
    (b : Bool) (r : Result Entries) → r ≢ out_of_fuel → (if b then r else panicked) ≢ out_of_fuel
if-ne true r h = h
if-ne false r h = cc

get_list-ne : (ts : Tokens) → get_list ts ≢ out_of_fuel
unfolding get_list
get_list-ne ts =
    if-ne (starts_with Token.bracket_open ts && ends_with Token.bracket_close ts)
      (list_items (slice ts 1 (length ts - 1))) (list_items-ne (slice ts 1 (length ts - 1)))

-- The token behind a slice that starts at the first token of `ts`.
drop_lt :
    (slc ts : Tokens)
    → length slc ≤ length ts
    → 1 ≤ length slc
    → length (drop (length slc) ts) < length ts
drop_lt slc ts h k = omega (arith, length-drop (length slc) ts)

rvalue-ne :
    (f : ℕ) (k : Bytes) (ts : Tokens) (ret : TextMap)
    → ((us : Tokens) (r : TextMap) → length us < f → entries f us r ≢ out_of_fuel)
    → length ts < f
    → rvalue (entries f) k ts ret ≢ out_of_fuel
unfolding rvalue find_matching_token
rvalue-ne f k [] ret more h = cc
rvalue-ne f k (Token.number x ∷ ts) ret more h = more ts _ (omega arith)
rvalue-ne f k (Token.string x ∷ ts) ret more h = more ts _ (omega arith)
rvalue-ne f k (Token.bracket_open ∷ ts) ret more h =
    let all = Token.bracket_open ∷ ts in
    let store = λ (slc : Tokens) (v : Entries).
      entries f (drop (length slc) all) (insert k (Entry.list v) ret) in
    bind-ne-out_of_fuel (find_matching_token all Token.bracket_open Token.bracket_close)
      (λ slc. get_list slc >>= store slc)
      (matching-ne Token.bracket_open Token.bracket_close (pos 0) all)
      (λ slc e.
        let (le, some_token) =
          matching-FitsIn Token.bracket_open Token.bracket_close (pos 0) all slc e in
        let fewer = drop_lt slc all le some_token in
        bind-ne-out_of_fuel (get_list slc) (store slc) (get_list-ne slc)
          (λ v _. more (drop (length slc) all) (insert k (Entry.list v) ret) (omega arith)))
rvalue-ne f k (_ ∷ ts) ret more h = cc

entry-ne :
    (f : ℕ) (k : Bytes) (ts : Tokens) (ret : TextMap)
    → ((us : Tokens) → length us < f → get_textmap f us ≢ out_of_fuel)
    → ((us : Tokens) (r : TextMap) → length us < f → entries f us r ≢ out_of_fuel)
    → length ts < f
    → entry (get_textmap f) (entries f) k ts ret ≢ out_of_fuel
unfolding entry find_matching_token
entry-ne f k [] ret inner more h = cc
entry-ne f k (Token.equals ∷ ts) ret inner more h = rvalue-ne f k ts ret more (omega arith)
entry-ne f k (Token.curly_open ∷ ts) ret inner more h =
    let all = Token.curly_open ∷ ts in
    let store = λ (slc : Tokens) (m : TextMap).
      entries f (drop (length slc) all) (insert k (Entry.text_map m) ret) in
    bind-ne-out_of_fuel (find_matching_token all Token.curly_open Token.curly_close)
      (λ slc. get_textmap f slc >>= store slc)
      (matching-ne Token.curly_open Token.curly_close (pos 0) all)
      (λ slc e.
        let (le, some_token) =
          matching-FitsIn Token.curly_open Token.curly_close (pos 0) all slc e in
        let fewer = drop_lt slc all le some_token in
        bind-ne-out_of_fuel (get_textmap f slc) (store slc) (inner slc (omega arith))
          (λ m _. more (drop (length slc) all) (insert k (Entry.text_map m) ret) (omega arith)))
entry-ne f k (_ ∷ ts) ret inner more h = cc

checked-ne :
    (b : Bool) (r : Result TextMap)
    → r ≢ out_of_fuel
    → elim b as (λ _. Result TextMap) [ true ↦ r | false ↦ panicked ] ≢ out_of_fuel
checked-ne true r h = h
checked-ne false r h = cc

mutual
  unfolding get_textmap entries

  get_textmap-ne : (f : ℕ) (ts : Tokens) → length ts < f → get_textmap f ts ≢ out_of_fuel
  get_textmap-ne zero ts h = absurd (omega arith)
  get_textmap-ne (suc f) [] h = cc
  get_textmap-ne (suc f) (t ∷ ts) h =
      checked-ne (starts_with Token.curly_open (t ∷ ts) && ends_with Token.curly_close (t ∷ ts))
        (entries f ts empty) (entries-ne f ts empty (omega arith))

  entries-ne :
      (f : ℕ) (ts : Tokens) (ret : TextMap) → length ts < f → entries f ts ret ≢ out_of_fuel
  entries-ne zero ts ret h = absurd (omega arith)
  entries-ne (suc f) [] ret h = cc
  entries-ne (suc f) (Token.curly_close ∷ ts) ret h = cc
  entries-ne (suc f) (Token.ident x ∷ ts) ret h =
      entry-ne f (from_utf8_lossy x) ts ret (get_textmap-ne f) (entries-ne f) (omega arith)
  entries-ne (suc f) (Token.comment _ ∷ ts) ret h = entries-ne f ts ret (omega arith)
  entries-ne (suc f) (_ ∷ ts) ret h = cc

unwrap-ne {ℓ} : {A : Type ℓ} (o : Option A) → unwrap o ≢ out_of_fuel
unwrap-ne none = cc
unwrap-ne (some a) = cc

if_move-ne :
    (b : Bool) (x y : Result Move)
    → x ≢ out_of_fuel
    → y ≢ out_of_fuel
    → (if b then x else y) ≢ out_of_fuel
if_move-ne true x y h k = h
if_move-ne false x y h k = k

move-ne : (flag : Bool) (s : State) (c : ℕ) → move flag s c ≢ out_of_fuel
unfolding move
move-ne flag between c = cc
move-ne flag (State.in_string b) c = cc
move-ne flag (State.in_ident b) c = cc
move-ne flag (State.in_comment b) c = cc
move-ne flag (State.in_number b) c =
    let closed = λ (n : ℤ). ok (close_token (Token.number n) (open_token flag c)) in
    if_move-ne (is_digit c) (ok ([], flag, State.in_number (b ++ c ∷ [])))
      (unwrap (parse_i64 (from_utf8_lossy b)) >>= closed) (cc)
      (bind-ne-out_of_fuel (unwrap (parse_i64 (from_utf8_lossy b))) closed
        (unwrap-ne (parse_i64 (from_utf8_lossy b))) (λ n e. cc))

run-ne : (cs : Bytes) (flag : Bool) (s : State) → run flag s cs ≢ out_of_fuel
unfolding run
run-ne [] flag s = cc
run-ne (c ∷ cs) flag s =
    let after = λ (m : Move). run m.1 m.2 cs >>= λ ts. ok (m.0 ++ ts) in
    bind-ne-out_of_fuel (move flag s c) after (move-ne flag s c) (λ m _.
      bind-ne-out_of_fuel (run m.1 m.2 cs) (λ ts. ok (m.0 ++ ts)) (run-ne cs m.1 m.2) (λ ts _. cc))

-- On every input `buf_to_textmap` ends: with a map, an error or a panic.
pub buf_to_textmap-ne-out_of_fuel : (buf : Bytes) → buf_to_textmap buf ≢ out_of_fuel
unfolding buf_to_textmap
buf_to_textmap-ne-out_of_fuel buf =
    let whole = λ (ts : Tokens). Token.curly_open ∷ (ts ++ (Token.curly_close ∷ [])) in
    rw (tokenize-run buf) (
      bind-ne-out_of_fuel (run false between buf) (λ ts. read_tokens (whole ts))
        (run-ne buf false between)
        (λ ts _. get_textmap-ne (suc (length (whole ts))) (whole ts) (omega arith)))
