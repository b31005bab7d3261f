-- ===== src/Parser/Lexer/Refines/Tokens.antt =====
-- The loop of `next` of src/parser.rs inside a string, a name, a number or a comment, to its end.
use melvin.Prelude.{
  ℕ, zero, suc, ◌<◌, ◌≡◌, refl, sym, ap, ◌∙◌, Bool, true, false, [], ◌∷◌, ◌++◌, append_assoc,
  Option, none, some, Bytes, ◌==◌, length, not, ℤ, ok, bind_ok, is_digit, parse_i64,
  from_utf8_lossy, arith, Bool-cases, ==_iff, inl, inr,
}
use melvin.Parser.Token.{Token}
use melvin.Parser.Lexer.{
  Lexer, Mode, in_string, in_ident, in_number, in_comment, continue, is_ident_byte, round, next_in,
  collect,
}
use melvin.Parser.Lexer.Automaton.{State, between, run, move}
use melvin.Parser.Lexer.Refines.Cursor.{
  at_pos, held, resume, next_in-emit, next_in-continue, next_in-fail, next_in-end, string_close,
  end_ident-at, end_comment-at, end_number-at, run-close_token,
}

module _ (F : ℕ)
    (later : (h : Bool) (pre rest : Bytes) (flag : Bool)
      → length rest < F
      → collect F (at_pos pre rest flag (held h rest)) ≡ run flag between rest) where
  -- A token whose bytes `stays` accepts, up to one that it refuses, or to the end of the input.
  module _ (M : ℕ → Mode) (S : Bytes → State) (opener : Bytes) (stays : ℕ → Bool)
      (goes_on : (first c : ℕ) (l : Lexer)
        → stays c ≡ true
        → round (M first) c l ≡ continue (M first) l)
      (moves : (flag : Bool) (b : Bytes) (c : ℕ)
        → stays c ≡ true
        → move flag (S b) c ≡ ok ([], flag, S (b ++ c ∷ [])))
      (ends : (f : ℕ) (before b : Bytes) (c : ℕ) (cs : Bytes) (flag : Bool)
        → stays c ≡ false
        → length (c ∷ cs) < F
        → resume F (
            next_in
              (suc f)
              (M (length before))
              (at_pos (before ++ (opener ++ b)) (c ∷ cs) flag none))
          ≡ run flag (S b) (c ∷ cs)) where
    resume-token :
        (f : ℕ) (rest before b : Bytes) (flag : Bool)
        → length rest < f
        → length rest < F
        → resume F (next_in f (M (length before)) (at_pos (before ++ (opener ++ b)) rest flag none))
          ≡ run flag (S b) rest
    unfolding run
    resume-token zero rest before b flag h k = absurd (omega arith)
    resume-token (suc f) [] before b flag h k =
        rw (next_in-end f (M (length before)) false (before ++ (opener ++ b)) flag)
    resume-token (suc f) (c ∷ cs) before b flag h k = elim (Bool-cases (stays c)) [
      | inl inside ↦
          ap (resume F) (
            next_in-continue f (M (length before)) false (before ++ (opener ++ b)) c cs flag
              (M (length before)) (at_pos (before ++ (opener ++ b) ++ c ∷ []) cs flag none)
              (goes_on (length before) c (at_pos (before ++ (opener ++ b) ++ c ∷ []) cs flag none)
                inside))
          ∙ rw
              (
                append_assoc before (opener ++ b) (c ∷ []),
                append_assoc opener b (c ∷ []),
                moves flag b c inside,
              )
              (resume-token f cs before (b ++ c ∷ []) flag (omega arith) (omega arith)
                ∙ sym (bind_ok _))
      | inr outside ↦ ends f before b c cs flag outside k
    ]

  pub resume-in_string :
      (f : ℕ) (rest before b : Bytes) (flag : Bool)
      → length rest < f
      → length rest < F
      → resume F
          (next_in f (in_string (length before)) (at_pos (before ++ (b'"' ∷ b)) rest flag none))
        ≡ run flag (State.in_string b) rest
  unfolding run round
  resume-in_string =
      resume-token in_string State.in_string (b'"' ∷ []) (λ c. not (c == b'"'))
        (λ first c l h. ground arith) (λ flag b c h. ground arith)
        (λ f before b c cs flag e k. rw ((==_iff c b'"').0 (ground arith)) (
          ap (resume F) (
            next_in-emit f (in_string (length before)) false (before ++ b'"' ∷ b) b'"' cs flag
              (Token.string b) (at_pos (before ++ b'"' ∷ b ++ b'"' ∷ []) cs flag none)
              (string_close before b cs flag))
          ∙ rw (later false (before ++ b'"' ∷ b ++ b'"' ∷ []) cs flag (omega arith))))

  pub resume-in_ident :
      (f : ℕ) (rest before b : Bytes) (flag : Bool)
      → length rest < f
      → length rest < F
      → resume F (next_in f (in_ident (length before)) (at_pos (before ++ b) rest flag none))
        ≡ run flag (State.in_ident b) rest
  unfolding run round
  resume-in_ident =
      resume-token in_ident State.in_ident [] is_ident_byte (λ first c l h. rw h)
        (λ flag b c h. rw h)
        (λ f before b c cs flag e k.
          ap (resume F) (
            next_in-emit f (in_ident (length before)) false (before ++ b) c cs flag (Token.ident b)
              (at_pos (before ++ b) (c ∷ cs) false (some c)) (end_ident-at before b c cs flag e))
          ∙ rw (later true (before ++ b) (c ∷ cs) false k, e)
              (run-close_token (Token.ident b) false c cs))

  pub resume-in_comment :
      (f : ℕ) (rest before b : Bytes) (flag : Bool)
      → length rest < f
      → length rest < F
      → resume F (next_in f (in_comment (length before)) (at_pos (before ++ b) rest flag none))
        ≡ run flag (State.in_comment b) rest
  unfolding run round
  resume-in_comment =
      resume-token in_comment State.in_comment [] (λ c. not (c == b'\n'))
        (λ first c l h. ground arith) (λ flag b c h. ground arith)
        (λ f before b c cs flag e k. rw ((==_iff c b'\n').0 (ground arith)) (
          ap (resume F) (
            next_in-emit f (in_comment (length before)) false (before ++ b) b'\n' cs flag
              (Token.comment b) (at_pos (before ++ b) (b'\n' ∷ cs) flag (some b'\n'))
              (end_comment-at before b cs flag))
          ∙ rw (later true (before ++ b) (b'\n' ∷ cs) flag k)
              (run-close_token (Token.comment b) flag b'\n' cs)))

  number_ends :
      (o : Option ℤ) (f : ℕ) (before b : Bytes) (c : ℕ) (cs : Bytes) (flag : Bool)
      → parse_i64 (from_utf8_lossy b) ≡ o
      → is_digit c ≡ false
      → length (c ∷ cs) < F
      → resume F
          (next_in (suc f) (in_number (length before)) (at_pos (before ++ b) (c ∷ cs) flag none))
        ≡ run flag (State.in_number b) (c ∷ cs)
  unfolding run round
  number_ends none f before b c cs flag p e k =
      ap (resume F) (
        next_in-fail f (in_number (length before)) false (before ++ b) c cs flag
          (end_number-at before b c cs flag e ∙ rw p))
      ∙ rw (e, p)
  number_ends (some n) f before b c cs flag p e k =
      ap (resume F) (
        next_in-emit f (in_number (length before)) false (before ++ b) c cs flag (Token.number n)
          (at_pos (before ++ b) (c ∷ cs) flag (some c)) (end_number-at before b c cs flag e ∙ rw p))
      ∙ rw (later true (before ++ b) (c ∷ cs) flag k, e, p)
          (run-close_token (Token.number n) flag c cs)

  pub resume-in_number :
      (f : ℕ) (rest before b : Bytes) (flag : Bool)
      → length rest < f
      → length rest < F
      → resume F (next_in f (in_number (length before)) (at_pos (before ++ b) rest flag none))
        ≡ run flag (State.in_number b) rest
  unfolding run round
  resume-in_number =
      resume-token in_number State.in_number [] is_digit (λ first c l h. rw h) (λ flag b c h. rw h)
        (λ f before b c cs flag e k. number_ends _ f before b c cs flag refl e k)
