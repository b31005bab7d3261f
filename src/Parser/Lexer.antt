-- ===== src/Parser/Lexer.antt =====
-- The lexer of src/parser.rs: a cursor into the bytes, one byte put back, and a flag that lets a
-- name begin with a digit behind `{`.
pub mod Automaton
pub mod Refines
use melvin.Prelude.{
  ℕ, zero, suc, ◌+◌, ◌-◌, Bool, true, false, ◌||◌, List, [], ◌∷◌, Option, none, some, Bytes, ◌==◌,
  if◌then◌else◌, ℤ, within, get_elem?, slice, length, is_digit, parse_i64, from_utf8_lossy, Result,
  ok, panicked, out_of_fuel, ◌>>=◌,
}
use melvin.Parser.Token.{Token}

pub record Lexer : Type 0 where
  pub chars : Bytes
  pub next_byte : Option ℕ
  pub cursor : ℕ
  pub next_is_ident : Bool

-- `Lexer::new`
abbrev pub new : Bytes → Lexer
new chars = record { chars = chars; next_byte = none; cursor = 0; next_is_ident = false }

unfoldable pub put_back : Lexer → ℕ → Lexer
put_back l c = record l { next_byte = some c; cursor = l.cursor - 1 }

-- The byte in the buffer, or the one under the cursor.
unfoldable pub read_byte : Lexer → Option (ℕ × Lexer)
read_byte l = elim l.next_byte [
  | some c ↦ some (c, record l { next_byte = none; cursor = l.cursor + 1 })
  | none ↦ elim (get_elem? l.chars l.cursor) [
    | none ↦ none
    | some res ↦ some (res, record l { next_byte = none; cursor = l.cursor + 1 })
  ]
]

-- `Mode`, with the position where the mode was started.
pub data Mode : Type 0 where
  main : Mode
  in_string in_ident in_number in_comment : ℕ → Mode

-- One round of the loop of `next`: it returns a token, goes on, or panics.
pub data Round : Type 0 where
  emit : Token → Lexer → Round
  continue : Mode → Lexer → Round
  fail : Round

abbrev pub is_ident_start : ℕ → Bool
is_ident_start c = within b'a' b'z' c || within b'A' b'Z' c || c == b'_' || c == b'.'

abbrev pub is_ident_byte : ℕ → Bool
is_ident_byte c = is_ident_start c || is_digit c || c == b'-'

abbrev pub is_space : ℕ → Bool
is_space c = c == b' ' || c == b'\n' || c == b'\t' || c == 0

main_round : ℕ → Lexer → Round
main_round c l =
    if c == b'{'
    then emit Token.curly_open (record l { next_is_ident = true })
    else if c == b'}'
    then emit Token.curly_close l
    else if c == b'"'
    then continue (in_string (l.cursor - 1)) l
    else if is_ident_start c
    then continue (in_ident (l.cursor - 1)) l
    else if is_digit c || c == b'-'
    then continue (if l.next_is_ident then in_ident (l.cursor - 1) else in_number (l.cursor - 1)) l
    else if c == b'#'
    then continue (in_comment (l.cursor - 1)) l
    else if c == b'['
    then emit Token.bracket_open l
    else if c == b']'
    then emit Token.bracket_close l
    else if c == b'='
    then emit Token.equals l
    else if c == b','
    then emit Token.comma l
    else if is_space c
    then continue main l
    else emit (Token.invalid c) l

-- `s.parse().unwrap()`
pub number_token : Option ℤ → Lexer → Round
number_token none l = fail
number_token (some n) l = emit (Token.number n) l

-- The ends of a name, a number and a comment: the byte `c` is put back.
end_ident : ℕ → Lexer → Round
end_ident first l =
    emit (Token.ident (slice l.chars first l.cursor)) (record l { next_is_ident = false })

end_number : ℕ → Lexer → Round
unfolding number_token
end_number first l = number_token (parse_i64 (from_utf8_lossy (slice l.chars first l.cursor))) l

end_comment : ℕ → Lexer → Round
end_comment first l = emit (Token.comment (slice l.chars first l.cursor)) l

unfoldable pub round : Mode → ℕ → Lexer → Round
unfolding main_round end_ident end_number end_comment
round main c l = main_round c l
round (in_string first) c l =
    if c == b'"'
    then emit (Token.string (slice l.chars (first + 1) (l.cursor - 1))) l
    else continue (in_string first) l
round (in_ident first) c l =
    if is_ident_byte c then continue (in_ident first) l else end_ident first (put_back l c)
round (in_number first) c l =
    if is_digit c then continue (in_number first) l else end_number first (put_back l c)
round (in_comment first) c l =
    if c == b'\n' then end_comment first (put_back l c) else continue (in_comment first) l

-- The loop of `next`, on fuel.
unfoldable pub next_in : ℕ → Mode → Lexer → Result (Option (Token × Lexer))
next_in zero m l = out_of_fuel
next_in (suc f) m l = elim (read_byte l) [
  | none ↦ ok none
  | some (c, l') ↦ elim (round m c l') [
    | emit t l'' ↦ ok (some (t, l''))
    | continue m' l'' ↦ next_in f m' l''
    | fail ↦ panicked
  ]
]

-- `Iterator::next`: a call reads each byte at most once.
unfoldable pub next : Lexer → Result (Option (Token × Lexer))
next l = next_in (suc (length l.chars)) main l

-- All tokens of the iterator, on fuel.
unfoldable pub collect : ℕ → Lexer → Result (List Token)
collect zero l = out_of_fuel
collect (suc f) l =
    next l >>= λ o. elim o [ none ↦ ok [] | some (t, l') ↦ collect f l' >>= λ ts. ok (t ∷ ts) ]

-- Every token takes at least one byte.
unfoldable pub tokenize : Bytes → Result (List Token)
tokenize buf = collect (suc (length buf)) (new buf)
