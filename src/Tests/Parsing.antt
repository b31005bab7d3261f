-- ===== src/Tests/Parsing.antt =====
-- The theorems on src/parser.rs at concrete texts.
use melvin.Prelude.{
  ◌≡◌, ◌≢◌, refl, false, [], ◌∷◌, ◌++◌, arith, Bytes, bytes, pos, negsuc, ok, err, panicked,
  out_of_fuel, unexpected_ident, format_i64, from_utf8_lossy, before,
}
use melvin.Parser.TextMap.{Entry, TextMap, nil, cons, empty, bind}
use melvin.Vg.{nat_ord}
use melvin.Parser.Token.{Token}
use melvin.Parser.Lexer.{tokenize}
use melvin.Parser.Lexer.Automaton.{between, run, open_token}
use melvin.Parser.Lexer.Refines.{tokenize-run}
use melvin.Parser.Reader.{buf_to_textmap}
use melvin.Parser.Reader.Fuel.{buf_to_textmap-ne-out_of_fuel}
use melvin.Parser.Printer.{textmap_to_buf}
use melvin.Parser.Printable.{IsPrintable, bytes_onto}
use melvin.Parser.RoundTrip.{buf_to_textmap-textmap_to_buf}
use melvin.Parser.Malformed.{unclosed_section-panics, digit_name-refused}

abbrev pub sample : TextMap
sample =
    bind (bytes "flags")
      (Entry.list (cons (Entry.string (bytes "rw")) (cons (Entry.number (negsuc 4)) nil)))
      (bind (bytes "pv0") (Entry.text_map (bind (bytes "seqno") (Entry.number (pos 7)) empty))
        empty)

sample-IsPrintable : IsPrintable sample
unfolding before from_utf8_lossy
sample-IsPrintable = (
  (refl, (refl, (refl, (refl, (refl, tt))))),
  (((omega arith, (omega arith, tt)), refl), (omega arith, tt)),
  (refl, tt),
  (
    (refl, (refl, (refl, tt))),
    ((refl, (refl, (refl, (refl, (refl, tt))))), omega arith, tt, tt),
    tt,
    tt,
  ),
)

buf_to_textmap-textmap_to_buf_example :
    (buf : Bytes) × (textmap_to_buf sample ≡ ok buf)
    × (buf_to_textmap buf ≡ ok sample)
    × (buf_to_textmap (buf ++ 0 ∷ []) ≡ ok sample)
buf_to_textmap-textmap_to_buf_example = buf_to_textmap-textmap_to_buf sample sample-IsPrintable

tokenize-run_example :
    tokenize (bytes "a = [\"x\", 12]\n# end\n")
    ≡ run false between (bytes "a = [\"x\", 12]\n# end\n")
tokenize-run_example = tokenize-run (bytes "a = [\"x\", 12]\n# end\n")

buf_to_textmap-ne-out_of_fuel_example : buf_to_textmap (bytes "a { b = [ }") ≢ out_of_fuel
buf_to_textmap-ne-out_of_fuel_example = buf_to_textmap-ne-out_of_fuel (bytes "a { b = [ }")

unclosed_section-panics_example :
    buf_to_textmap (bytes "vg" ++ (bytes " {\n" ++ bytes_onto sample [])) ≡ panicked
unclosed_section-panics_example =
    unclosed_section-panics (bytes "vg") sample (refl, (refl, tt)) sample-IsPrintable

digit_name-refused_example :
    buf_to_textmap (
      bytes_onto
        (bind (bytes "seqno") (Entry.number (pos 1)) empty)
        (format_i64 (pos 42) ++ (bytes " {\n" ++ bytes "}\n")))
    ≡ err unexpected_ident
unfolding run open_token
digit_name-refused_example =
    digit_name-refused (bytes "seqno") (pos 1) 42 (bytes "}\n")
      (Token.curly_open ∷ Token.curly_close ∷ []) (refl, (refl, (refl, (refl, (refl, tt)))))
      (omega arith) (omega arith) refl
