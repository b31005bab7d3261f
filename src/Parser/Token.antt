-- ===== src/Parser/Token.antt =====
-- Tokens of src/parser.rs, and their equality (`#[derive(PartialEq)]`).
use melvin.Prelude.{
  ℕ, Bool, true, false, Bytes, bytes, same, Result, ok, panicked, ◌==◌, ℤ, pos, negsuc,
}

pub data Token : Type 0 where
  curly_open curly_close bracket_open bracket_close equals comma : Token
  string : Bytes → Token
  ident : Bytes → Token
  number : ℤ → Token
  comment : Bytes → Token
  invalid : ℕ → Token

abbrev pub same_int : ℤ → ℤ → Bool
same_int (pos m) (pos n) = m == n
same_int (negsuc m) (negsuc n) = m == n
same_int _ _ = false

abbrev pub same_token : Token → Token → Bool
same_token curly_open curly_open = true
same_token curly_close curly_close = true
same_token bracket_open bracket_open = true
same_token bracket_close bracket_close = true
same_token equals equals = true
same_token comma comma = true
same_token (string s) (string t) = same s t
same_token (ident s) (ident t) = same s t
same_token (number m) (number n) = same_int m n
same_token (comment s) (comment t) = same s t
same_token (invalid b) (invalid c) = b == c
same_token _ _ = false

-- `AsRef<str>`: only the tokens of one fixed text have it, any other is a panic.
unfoldable pub as_ref : Token → Result Bytes
as_ref curly_open = ok (bytes "{")
as_ref curly_close = ok (bytes "}")
as_ref bracket_open = ok (bytes "[")
as_ref bracket_close = ok (bytes "]")
as_ref equals = ok (bytes "=")
as_ref comma = ok (bytes ",")
as_ref _ = panicked
