-- ===== src/Parser/Lexer/Automaton.antt =====
-- What the lexer computes, with no cursor, no byte put back and no fuel: an automaton that reads
-- each byte once and keeps the bytes of the token that it is in.
use melvin.Prelude.{
  ℕ, Bool, true, false, ◌||◌, List, [], ◌∷◌, ◌++◌, Bytes, ◌==◌, if◌then◌else◌, is_digit, parse_i64,
  from_utf8_lossy, Result, ok, unwrap, ◌>>=◌,
}
use melvin.Parser.Token.{Token}
use melvin.Parser.Lexer.{is_ident_start, is_ident_byte, is_space}

-- Between tokens, or in one, with its bytes so far.
pub data State : Type 0 where
  between : State
  in_string in_ident in_number in_comment : Bytes → State

-- The tokens put out, the flag of a name that may begin with a digit, and the state.
abbrev pub Move : Type 0
Move = List Token × Bool × State

-- A byte between tokens.
unfoldable pub open_token : Bool → ℕ → Move
open_token flag c =
    if c == b'{'
    then (Token.curly_open ∷ [], true, between)
    else if c == b'}'
    then (Token.curly_close ∷ [], flag, between)
    else if c == b'"'
    then ([], flag, in_string [])
    else if is_ident_start c
    then ([], flag, in_ident (c ∷ []))
    else if is_digit c || c == b'-'
    then ([], flag, if flag then in_ident (c ∷ []) else in_number (c ∷ []))
    else if c == b'#'
    then ([], flag, in_comment (c ∷ []))
    else if c == b'['
    then (Token.bracket_open ∷ [], flag, between)
    else if c == b']'
    then (Token.bracket_close ∷ [], flag, between)
    else if c == b'='
    then (Token.equals ∷ [], flag, between)
    else if c == b','
    then (Token.comma ∷ [], flag, between)
    else if is_space c
    then ([], flag, between)
    else (Token.invalid c ∷ [], flag, between)

-- The byte behind a token that ends before it.
abbrev pub close_token : Token → Move → Move
close_token t (out, flag, s) = (t ∷ out, flag, s)

unfoldable pub move : Bool → State → ℕ → Result Move
move flag between c = ok (open_token flag c)
move flag (in_string b) c = ok (
    if c == b'"' then (Token.string b ∷ [], flag, between) else ([], flag, in_string (b ++ c ∷ [])))
move flag (in_ident b) c = ok (
    if is_ident_byte c
    then ([], flag, in_ident (b ++ c ∷ []))
    else close_token (Token.ident b) (open_token false c))
move flag (in_number b) c = if is_digit c then ok ([], flag, in_number (b ++ c ∷ [])) else do
  n ← unwrap (parse_i64 (from_utf8_lossy b))
  ok (close_token (Token.number n) (open_token flag c))
move flag (in_comment b) c = ok (
    if c == b'\n'
    then close_token (Token.comment b) (open_token flag c)
    else ([], flag, in_comment (b ++ c ∷ [])))

-- A token begun and not ended at the end of the input is dropped.
unfoldable pub run : Bool → State → Bytes → Result (List Token)
unfolding move
run flag s [] = ok []
run flag s (c ∷ cs) = do (out, flag', s') ← move flag s c; ts ← run flag' s' cs; ok (out ++ ts)
