-- ===== src/Parser/Printer.antt =====
-- `textmap_to_buf` of src/parser.rs.
use melvin.Prelude.{List, [], ◌∷◌, ◌++◌, Bytes, bytes, format_i64, Result, ok, panicked, ◌>>=◌}
use melvin.Parser.TextMap.{Entry, Entries, nil, cons, TextMap, empty, bind}

-- `z.join(", ")`
unfoldable pub join : Bytes → List Bytes → Bytes
join sep [] = []
join sep (x ∷ []) = x
join sep (x ∷ y ∷ xs) = x ++ (sep ++ join sep (y ∷ xs))

-- A list holds strings and numbers; any other item is a panic.
unfoldable pub item_to_buf : Entry → Result Bytes
item_to_buf (Entry.string x) = ok (b'"' ∷ (x ++ (b'"' ∷ [])))
item_to_buf (Entry.number x) = ok (format_i64 x)
item_to_buf _ = panicked

unfoldable pub items_to_bufs : Entries → Result (List Bytes)
unfolding item_to_buf
items_to_bufs nil = ok []
items_to_bufs (cons x xs) = do b ← item_to_buf x; bs ← items_to_bufs xs; ok (b ∷ bs)

unfoldable pub textmap_to_buf : TextMap → Result Bytes
unfolding items_to_bufs join
textmap_to_buf empty = ok []
textmap_to_buf (bind k (Entry.string x) m) = do
  rest ← textmap_to_buf m
  ok (k ++ (bytes " = \"" ++ (x ++ (bytes "\"\n" ++ rest))))
textmap_to_buf (bind k (Entry.number x) m) = do
  rest ← textmap_to_buf m
  ok (k ++ (bytes " = " ++ (format_i64 x ++ (bytes "\n" ++ rest))))
textmap_to_buf (bind k (Entry.list x) m) = do
  z ← items_to_bufs x
  rest ← textmap_to_buf m
  ok (k ++ (bytes " = [" ++ (join (bytes ", ") z ++ (bytes "]\n" ++ rest))))
textmap_to_buf (bind k (Entry.text_map x) m) = do
  inner ← textmap_to_buf x
  rest ← textmap_to_buf m
  ok (k ++ (bytes " {\n" ++ (inner ++ (bytes "}\n" ++ rest))))
