-- ===== src/Parser/Lexer/Refines/Cursor.antt =====
-- The lexer of src/parser.rs at a place in its bytes, and its rounds at the ends of tokens.
use melvin.Prelude.{
  ℕ, suc, ◌+◌, ◌-◌, ◌≡◌, refl, sym, ap, Bool, true, false, List, [], ◌∷◌, ◌++◌, append_assoc,
  Option, none, some, Bytes, length, slice, length-append, get_elem?-append, drop-append,
  take-append, Result, ok, panicked, bind_ok_ok, is_digit, parse_i64, from_utf8_lossy, ◌>>=◌, arith,
}
use melvin.Parser.Token.{Token}
use melvin.Parser.Lexer.{
  Lexer, put_back, read_byte, Mode, in_string, in_ident, in_number, in_comment, emit, continue,
  fail, is_ident_byte, round, number_token, next_in, collect,
}
use melvin.Parser.Lexer.Automaton.{between, run, open_token}

-- The lexer behind `pre` and in front of `rest`.
abbrev pub at_pos : Bytes → Bytes → Bool → Option ℕ → Lexer
at_pos pre rest flag held = record {
  chars = pre ++ rest;
  next_byte = held;
  cursor = length pre;
  next_is_ident = flag;
}

-- The buffer is empty, or holds the next byte.
abbrev pub held : Bool → Bytes → Option ℕ
held true (c ∷ _) = some c
held _ _ = none

at_pos-cons :
    (pre : Bytes) (c : ℕ) (rest : Bytes) (flag : Bool)
    → record (at_pos pre (c ∷ rest) flag none) { cursor = length pre + 1 }
      ≡ at_pos (pre ++ c ∷ []) rest flag none
at_pos-cons pre c rest flag = λ i. record {
  chars = sym (append_assoc pre (c ∷ []) rest) i;
  next_byte = none;
  cursor = sym (length-append pre (c ∷ [])) i;
  next_is_ident = flag;
}

read_byte-at :
    (h : Bool) (pre : Bytes) (c : ℕ) (rest : Bytes) (flag : Bool)
    → read_byte (at_pos pre (c ∷ rest) flag (held h (c ∷ rest)))
      ≡ some (c, at_pos (pre ++ c ∷ []) rest flag none)
unfolding read_byte
read_byte-at true pre c rest flag = λ i. some (c, at_pos-cons pre c rest flag i)
read_byte-at false pre c rest flag =
    rw (get_elem?-append pre (c ∷ rest), read_byte) (λ i. some (c, at_pos-cons pre c rest flag i))

read_byte-end :
    (h : Bool) (pre : Bytes) (flag : Bool) → read_byte (at_pos pre [] flag (held h [])) ≡ none
unfolding read_byte
read_byte-end true pre flag = rw (get_elem?-append pre [], read_byte)
read_byte-end false pre flag = rw (get_elem?-append pre [], read_byte)

-- The lexer that has read `c` and puts it back.
put_back-at :
    (pre : Bytes) (c : ℕ) (rest : Bytes) (flag : Bool)
    → put_back (at_pos (pre ++ c ∷ []) rest flag none) c ≡ at_pos pre (c ∷ rest) flag (some c)
unfolding put_back
put_back-at pre c rest flag = λ i. record {
  chars = append_assoc pre (c ∷ []) rest i;
  next_byte = some c;
  cursor =
      (let e : length (pre ++ c ∷ []) - 1 ≡ length pre =
          omega (arith, length-append pre (c ∷ [])) in
        e i);
  next_is_ident = flag;
}

slice-middle :
    (x y z : Bytes) (i j : ℕ)
    → i ≡ length x
    → j ≡ length x + length y
    → slice (x ++ (y ++ z)) i j ≡ y
slice-middle x y z i j hi hj =
    let e : j - i ≡ length y = omega arith in rw (e, hi, drop-append x (y ++ z)) (take-append y z)

module _ (f : ℕ) (m : Mode) (h : Bool) (pre : Bytes) (c : ℕ) (rest : Bytes) (flag : Bool) where
  abbrev here : Lexer
  here = at_pos pre (c ∷ rest) flag (held h (c ∷ rest))

  abbrev beyond : Lexer
  beyond = at_pos (pre ++ c ∷ []) rest flag none

  pub next_in-emit :
      (t : Token) (l : Lexer)
      → round m c beyond ≡ emit t l
      → next_in (suc f) m here ≡ ok (some (t, l))
  unfolding next_in
  next_in-emit t l e = rw (read_byte-at h pre c rest flag, next_in, e)

  pub next_in-continue :
      (m' : Mode) (l : Lexer)
      → round m c beyond ≡ continue m' l
      → next_in (suc f) m here ≡ next_in f m' l
  unfolding next_in
  next_in-continue m' l e = rw (read_byte-at h pre c rest flag, next_in, e)

  pub next_in-fail : round m c beyond ≡ fail → next_in (suc f) m here ≡ panicked
  unfolding next_in
  next_in-fail e = rw (read_byte-at h pre c rest flag, next_in, e)

pub next_in-end :
    (f : ℕ) (m : Mode) (h : Bool) (pre : Bytes) (flag : Bool)
    → next_in (suc f) m (at_pos pre [] flag (held h [])) ≡ ok none
unfolding next_in
next_in-end f m h pre flag = rw (read_byte-end h pre flag, next_in)

-- What `collect` does with the outcome of `next`.
abbrev pub resume : ℕ → Result (Option (Token × Lexer)) → Result (List Token)
resume f r = r >>= λ o. elim o [ none ↦ ok [] | some (t, l') ↦ collect f l' >>= λ ts. ok (t ∷ ts) ]

string_bytes :
    (before b cs : Bytes)
    → slice
        (before ++ b'"' ∷ b ++ b'"' ∷ [] ++ cs)
        (length before + 1)
        (length (before ++ b'"' ∷ b ++ b'"' ∷ []) - 1)
      ≡ b
string_bytes before b cs =
    let split : before ++ b'"' ∷ b ++ b'"' ∷ [] ++ cs
        ≡ (before ++ b'"' ∷ []) ++ (b ++ (b'"' ∷ cs)) =
      simp append_assoc in
    rw split (
      slice-middle (before ++ b'"' ∷ []) b (b'"' ∷ cs) _ _
        (omega (arith, length-append before (b'"' ∷ [])))
        (omega (
          arith,
          length-append before (b'"' ∷ []),
          length-append (before ++ b'"' ∷ b) (b'"' ∷ []),
          length-append before (b'"' ∷ b),
        )))

-- The bytes of a token that ends at the cursor.
token_bytes :
    (before b cs : Bytes) → slice (before ++ b ++ cs) (length before) (length (before ++ b)) ≡ b
token_bytes before b cs =
    rw (append_assoc before b cs) (slice-middle before b cs _ _ refl (length-append before b))

pub string_close :
    (before b cs : Bytes) (flag : Bool)
    → round (in_string (length before)) b'"' (at_pos (before ++ b'"' ∷ b ++ b'"' ∷ []) cs flag none)
      ≡ emit (Token.string b) (at_pos (before ++ b'"' ∷ b ++ b'"' ∷ []) cs flag none)
unfolding round
string_close before b cs flag =
    ap (λ x. emit (Token.string x) (at_pos (before ++ b'"' ∷ b ++ b'"' ∷ []) cs flag none))
      (string_bytes before b cs)

pub end_ident-at :
    (before b : Bytes) (c : ℕ) (cs : Bytes) (flag : Bool)
    → is_ident_byte c ≡ false
    → round (in_ident (length before)) c (at_pos (before ++ b ++ c ∷ []) cs flag none)
      ≡ emit (Token.ident b) (at_pos (before ++ b) (c ∷ cs) false (some c))
unfolding round
end_ident-at before b c cs flag e =
    rw (e, put_back-at (before ++ b) c cs flag)
      (ap (λ x. emit (Token.ident x) (at_pos (before ++ b) (c ∷ cs) false (some c)))
        (token_bytes before b (c ∷ cs)))

pub end_comment-at :
    (before b cs : Bytes) (flag : Bool)
    → round (in_comment (length before)) b'\n' (at_pos (before ++ b ++ b'\n' ∷ []) cs flag none)
      ≡ emit (Token.comment b) (at_pos (before ++ b) (b'\n' ∷ cs) flag (some b'\n'))
unfolding round
end_comment-at before b cs flag = rw (put_back-at (before ++ b) b'\n' cs flag) (
    ap (λ x. emit (Token.comment x) (at_pos (before ++ b) (b'\n' ∷ cs) flag (some b'\n')))
      (token_bytes before b (b'\n' ∷ cs)))

pub end_number-at :
    (before b : Bytes) (c : ℕ) (cs : Bytes) (flag : Bool)
    → is_digit c ≡ false
    → round (in_number (length before)) c (at_pos (before ++ b ++ c ∷ []) cs flag none)
      ≡ number_token (parse_i64 (from_utf8_lossy b)) (at_pos (before ++ b) (c ∷ cs) flag (some c))
unfolding round
end_number-at before b c cs flag e =
    rw (e, put_back-at (before ++ b) c cs flag)
      (ap
        (λ x.
          number_token (parse_i64 (from_utf8_lossy x))
            (at_pos (before ++ b) (c ∷ cs) flag (some c)))
        (token_bytes before b (c ∷ cs)))

-- A token put out in front of a byte between tokens.
pub run-close_token :
    (t : Token) (flag : Bool) (c : ℕ) (cs : Bytes)
    → (run flag between (c ∷ cs) >>= λ ts. ok (t ∷ ts)) ≡ (
        run (open_token flag c).1 (open_token flag c).2 cs >>= λ ts.
        ok ((t ∷ (open_token flag c).0) ++ ts))
unfolding run
run-close_token t flag c cs =
    bind_ok_ok (run (open_token flag c).1 (open_token flag c).2 cs)
      (λ ts. (open_token flag c).0 ++ ts) (λ ts. t ∷ ts)
