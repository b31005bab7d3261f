-- ===== src/Parser.antt =====
-- src/parser.rs: the text format of LVM metadata.
pub mod Token
pub mod Lexer
pub mod TextMap
pub mod Reader
pub mod Printer
pub mod Printable
pub mod RoundTrip
pub mod Malformed
