-- ===== src/Parser/Lexer/Refines.antt =====
-- The lexer of src/parser.rs with its cursor, set beside the automaton.
pub mod Cursor
pub mod Tokens
use melvin.Prelude.{
  ℕ, zero, suc, ◌+◌, ◌-◌, ◌<◌, ◌≤◌, ◌≡◌, refl, sym, ap, ◌∙◌, Bool, true, false, List, [], ◌∷◌, ◌++◌,
  append_assoc, Option, none, some, Bytes, ◌==◌, if◌then◌else◌, length, slice, length-append,
  get_elem?-append, drop-append, take-append, not, ◌||◌, ℤ, Result, ok, panicked, bind_ok,
  bind_ok_ok, is_digit, parse_i64, from_utf8_lossy, ◌>>=◌, arith, Bool-cases, ==_iff, inl, inr,
}
use melvin.Parser.Token.{Token}
use melvin.Parser.Lexer.{
  Lexer, put_back, read_byte, Mode, main, in_string, in_ident, in_number, in_comment, emit,
  continue, fail, is_ident_start, is_ident_byte, is_space, round, number_token, next_in, next,
  collect, tokenize,
}
use melvin.Parser.Lexer.Automaton.{State, between, run, move, open_token}
use Cursor.{at_pos, held, resume, next_in-emit, next_in-continue, next_in-end}
use Tokens.{resume-in_string, resume-in_ident, resume-in_comment, resume-in_number}

module _ (F : ℕ)
    (later : (h : Bool) (pre rest : Bytes) (flag : Bool)
      → length rest < F
      → collect F (at_pos pre rest flag (held h rest)) ≡ run flag between rest) where
  -- The round of a byte between tokens.
  data Opened (pre : Bytes) (c : ℕ) (cs : Bytes) (flag : Bool) : Type 0 where
    put_out :
        (t : Token) (flag' : Bool)
        → round main c (at_pos (pre ++ c ∷ []) cs flag none)
          ≡ emit t (at_pos (pre ++ c ∷ []) cs flag' none)
        → open_token flag c ≡ (t ∷ [], flag', between)
        → Opened pre c cs flag
    skip :
        round main c (at_pos (pre ++ c ∷ []) cs flag none)
          ≡ continue main (at_pos (pre ++ c ∷ []) cs flag none)
        → open_token flag c ≡ ([], flag, between)
        → Opened pre c cs flag
    begin :
        (M : ℕ → Mode) (s : State)
        → round main c (at_pos (pre ++ c ∷ []) cs flag none)
          ≡ continue (M (length pre)) (at_pos (pre ++ c ∷ []) cs flag none)
        → open_token flag c ≡ ([], flag, s)
        → ((f : ℕ)
            → length cs < f
            → length cs < F
            → resume F (next_in f (M (length pre)) (at_pos (pre ++ c ∷ []) cs flag none))
              ≡ run flag s cs)
        → Opened pre c cs flag

  cursor_back : (pre : Bytes) (c : ℕ) → length (pre ++ c ∷ []) - 1 ≡ length pre
  cursor_back pre c = omega (arith, length-append pre (c ∷ []))

  begin_number :
      (pre : Bytes) (c : ℕ) (cs : Bytes) (flag : Bool)
      → round main c (at_pos (pre ++ c ∷ []) cs flag none)
        ≡ continue
            (if flag then in_ident (length pre) else in_number (length pre))
            (at_pos (pre ++ c ∷ []) cs flag none)
      → open_token flag c
        ≡ ([], flag, if flag then State.in_ident (c ∷ []) else State.in_number (c ∷ []))
      → Opened pre c cs flag
  begin_number pre c cs true e o =
      begin in_ident (State.in_ident (c ∷ [])) e o
        (λ f p q. resume-in_ident F later f cs pre (c ∷ []) true p q)
  begin_number pre c cs false e o =
      begin in_number (State.in_number (c ∷ [])) e o
        (λ f p q. resume-in_number F later f cs pre (c ∷ []) false p q)

  opened : (pre : Bytes) (c : ℕ) (cs : Bytes) (flag : Bool) → Opened pre c cs flag
  unfolding round open_token
  opened pre c cs flag = elim (Bool-cases (c == b'{')) [
    | inl h1 ↦ put_out Token.curly_open true (rw (h1)) (rw (h1))
    | inr n1 ↦ elim (Bool-cases (c == b'}')) [
      | inl h2 ↦ put_out Token.curly_close flag (rw (n1, h2)) (rw (n1, h2))
      | inr n2 ↦ elim (Bool-cases (c == b'"')) [
        | inl h3 ↦
            begin in_string (State.in_string []) (rw (n1, n2, h3, cursor_back pre c))
              (rw (n1, n2, h3))
              (λ f p q. rw ((==_iff c b'"').0 h3) (resume-in_string F later f cs pre [] flag p q))
        | inr n3 ↦ elim (Bool-cases (is_ident_start c)) [
          | inl h4 ↦
              begin in_ident (State.in_ident (c ∷ [])) (rw (n1, n2, n3, h4, cursor_back pre c))
                (rw (n1, n2, n3, h4)) (λ f p q. resume-in_ident F later f cs pre (c ∷ []) flag p q)
          | inr n4 ↦ elim (Bool-cases (is_digit c || c == b'-')) [
            | inl h5 ↦
                begin_number pre c cs flag (rw (n1, n2, n3, n4, h5, cursor_back pre c))
                  (rw (n1, n2, n3, n4, h5))
            | inr n5 ↦ elim (Bool-cases (c == b'#')) [
              | inl h6 ↦
                  begin in_comment (State.in_comment (c ∷ []))
                    (rw (n1, n2, n3, n4, n5, h6, cursor_back pre c)) (rw (n1, n2, n3, n4, n5, h6))
                    (λ f p q. resume-in_comment F later f cs pre (c ∷ []) flag p q)
              | inr n6 ↦ elim (Bool-cases (c == b'[')) [
                | inl h7 ↦
                    put_out Token.bracket_open flag (rw (n1, n2, n3, n4, n5, n6, h7))
                      (rw (n1, n2, n3, n4, n5, n6, h7))
                | inr n7 ↦ elim (Bool-cases (c == b']')) [
                  | inl h8 ↦
                      put_out Token.bracket_close flag (rw (n1, n2, n3, n4, n5, n6, n7, h8))
                        (rw (n1, n2, n3, n4, n5, n6, n7, h8))
                  | inr n8 ↦ elim (Bool-cases (c == b'=')) [
                    | inl h9 ↦
                        put_out Token.equals flag (rw (n1, n2, n3, n4, n5, n6, n7, n8, h9))
                          (rw (n1, n2, n3, n4, n5, n6, n7, n8, h9))
                    | inr n9 ↦ elim (Bool-cases (c == b',')) [
                      | inl h10 ↦
                          put_out Token.comma flag (rw (n1, n2, n3, n4, n5, n6, n7, n8, n9, h10))
                            (rw (n1, n2, n3, n4, n5, n6, n7, n8, n9, h10))
                      | inr n10 ↦ elim (Bool-cases (is_space c)) [
                        | inl h11 ↦
                            skip (rw (n1, n2, n3, n4, n5, n6, n7, n8, n9, n10, h11))
                              (rw (n1, n2, n3, n4, n5, n6, n7, n8, n9, n10, h11))
                        | inr n11 ↦
                            put_out (Token.invalid c) flag
                              (rw (n1, n2, n3, n4, n5, n6, n7, n8, n9, n10, n11))
                              (rw (n1, n2, n3, n4, n5, n6, n7, n8, n9, n10, n11))
                      ]
                    ]
                  ]
                ]
              ]
            ]
          ]
        ]
      ]
    ]
  ]

  resume-main :
      (f : ℕ) (rest pre : Bytes) (flag h : Bool)
      → length rest < f
      → length rest ≤ F
      → resume F (next_in f main (at_pos pre rest flag (held h rest))) ≡ run flag between rest
  unfolding run
  resume-main zero rest pre flag h p q = absurd (omega arith)
  resume-main (suc f) [] pre flag h p q = rw (next_in-end f main h pre flag)
  resume-main (suc f) (c ∷ cs) pre flag h p q = elim (opened pre c cs flag) [
    | put_out t flag' e o ↦
        ap (resume F)
          (next_in-emit f main h pre c cs flag t (at_pos (pre ++ c ∷ []) cs flag' none) e)
        ∙ rw (later false (pre ++ c ∷ []) cs flag' (omega arith), o)
    | skip e o ↦
        ap (resume F)
          (next_in-continue f main h pre c cs flag main (at_pos (pre ++ c ∷ []) cs flag none) e)
        ∙ rw o (
            resume-main f cs (pre ++ c ∷ []) flag false (omega arith) (omega arith)
            ∙ sym (bind_ok _))
    | begin M s e o ends ↦
        ap (resume F) (
          next_in-continue f main h pre c cs flag (M (length pre))
            (at_pos (pre ++ c ∷ []) cs flag none) e)
        ∙ rw o (ends f (omega arith) (omega arith) ∙ sym (bind_ok _))
  ]

collect-at :
    (F : ℕ) (h : Bool) (pre rest : Bytes) (flag : Bool)
    → length rest < F
    → collect F (at_pos pre rest flag (held h rest)) ≡ run flag between rest
unfolding collect next
collect-at zero h pre rest flag p = absurd (omega arith)
collect-at (suc F) h pre rest flag p =
    resume-main F (collect-at F) (suc (length (pre ++ rest))) rest pre flag h
      (omega (arith, length-append pre rest)) (omega arith)

-- On every input the lexer, with its cursor and its fuel, returns the tokens of the automaton, or
-- panics as it does.
pub tokenize-run : (buf : Bytes) → tokenize buf ≡ run false between buf
unfolding tokenize
tokenize-run buf = collect-at (suc (length buf)) false [] buf false (omega arith)
