-- ===== src/Parser/RoundTrip.antt =====
-- Reading back what was printed (src/parser.rs).
pub mod Lexing
pub mod Rebuilding
pub mod Matching
pub mod Reading
use melvin.Prelude.{
  ℕ, suc, ◌<◌, ◌≤◌, ◌≡◌, refl, sym, ap, ◌∙◌, Bool, true, false, [], ◌∷◌, ◌++◌, append-nil, Bytes,
  bytes, length, Result, ok, err, panicked, ◌>>=◌, arith, length-append, from_utf8_lossy,
}
use melvin.Parser.Token.{Token}
use melvin.Parser.Lexer.{tokenize}
use melvin.Parser.Lexer.Automaton.{between, open_token, run}
use melvin.Parser.Lexer.Refines.{tokenize-run}
use melvin.Parser.TextMap.{TextMap, empty, bind}
use melvin.Parser.Reader.{Tokens, get_textmap, entries, read_tokens, buf_to_textmap}
use melvin.Parser.Printer.{textmap_to_buf}
use melvin.Parser.Printable.{IsName, IsPrintable, tokens_onto, bytes_onto, textmap-Prints}
use Lexing.{behind, run-bytes_onto}
use Rebuilding.{inserts_lem}
use Matching.{length-tokens_onto, ends_with-tokens_onto, tokens_onto-append, find-curly}
use Reading.{get_textmap-tokens_onto, entries-tokens_onto, name-utf8}

-- The map of a buffer whose tokens are those of a printable map.
buf_to_textmap-tokens :
    (m : TextMap) (buf : Bytes)
    → IsPrintable m
    → run false between buf ≡ ok (tokens_onto m [])
    → buf_to_textmap buf ≡ ok m
unfolding buf_to_textmap
buf_to_textmap-tokens m buf h e =
    rw (tokenize-run buf, e, tokens_onto-append m [] (Token.curly_close ∷ []))
      (get_textmap-tokens_onto (suc (length (tokens_onto m (Token.curly_close ∷ [])))) m (
          entries-tokens_onto m (suc (length (tokens_onto m (Token.curly_close ∷ [])))) [] empty h
            (omega (arith, length-tokens_onto m (Token.curly_close ∷ []))))
        ∙ ap ok (inserts_lem m h))

run-printed :
    (m : TextMap) (rest : Bytes)
    → IsPrintable m
    → ((flag : Bool) → run flag between rest ≡ ok [])
    → run false between (bytes_onto m rest) ≡ ok (tokens_onto m [])
run-printed m rest h e = run-bytes_onto m false rest h ∙ rw e

-- A text map that the format can express is printed with no panic, and its print is read back as
-- the same map, also with the zero byte behind it that `write_metadata` adds on disk.
pub buf_to_textmap-textmap_to_buf :
    (m : TextMap)
    → IsPrintable m
    → (buf : Bytes) × (textmap_to_buf m ≡ ok buf)
      × (buf_to_textmap buf ≡ ok m)
      × (buf_to_textmap (buf ++ 0 ∷ []) ≡ ok m)
unfolding run open_token
buf_to_textmap-textmap_to_buf m h =
    let (buf, printed, onto) = textmap-Prints m h in
    let plain = sym (append-nil buf) ∙ onto [] in
    (
      buf,
      printed,
      buf_to_textmap-tokens m buf h (rw plain (run-printed m [] h (λ flag. refl))),
      buf_to_textmap-tokens m (buf ++ 0 ∷ []) h
          (rw (onto (0 ∷ [])) (run-printed m (0 ∷ []) h (λ flag. refl))),
    )
