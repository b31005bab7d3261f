-- ===== src/Parser/TextMap.antt =====
-- `Entry`, `LvmTextMap` and `TextMapOps` of src/parser.rs. A `BTreeMap` is the list of its
-- bindings in the order of their keys.
pub mod Laws
use melvin.Prelude.{
  ℤ, Bool, true, false, Option, none, some, List, [], ◌∷◌, Bytes, same, before, if◌then◌else◌,
  Error, status_parsing, Result, ok, err, bytes,
}

mutual
  pub data Entry : Type 0 where
    number : ℤ → Entry
    string : Bytes → Entry
    list : Entries → Entry
    text_map : TextMap → Entry

  -- `Vec<Entry>`
  pub data Entries : Type 0 where
    nil : Entries
    cons : Entry → Entries → Entries

  -- `BTreeMap<String, Entry>`
  pub data TextMap : Type 0 where
    empty : TextMap
    bind : Bytes → Entry → TextMap → TextMap

-- `BTreeMap::insert`
unfoldable pub insert : Bytes → Entry → TextMap → TextMap
insert k v empty = bind k v empty
insert k v (bind j w m) =
    if before k j
    then bind k v (bind j w m)
    else if same k j
    then bind k v m
    else bind j w (insert k v m)

-- `BTreeMap::get`
unfoldable pub get : Bytes → TextMap → Option Entry
get k empty = none
get k (bind j w m) = if same k j then some w else get k m

abbrev as_number : Option Entry → Option ℤ
as_number (some (Entry.number x)) = some x
as_number _ = none

abbrev as_string : Option Entry → Option Bytes
as_string (some (Entry.string x)) = some x
as_string _ = none

abbrev as_list : Option Entry → Option Entries
as_list (some (Entry.list x)) = some x
as_list _ = none

abbrev as_text_map : Option Entry → Option TextMap
as_text_map (some (Entry.text_map x)) = some x
as_text_map _ = none

abbrev pub i64_from_textmap : TextMap → Bytes → Option ℤ
i64_from_textmap map name = as_number (get name map)

abbrev pub string_from_textmap : TextMap → Bytes → Option Bytes
string_from_textmap map name = as_string (get name map)

abbrev pub list_from_textmap : TextMap → Bytes → Option Entries
list_from_textmap map name = as_list (get name map)

abbrev pub textmap_from_textmap : TextMap → Bytes → Option TextMap
textmap_from_textmap map name = as_text_map (get name map)

-- `iter().filter_map(…)`: the strings of a list.
unfoldable pub strings_of : Entries → List Bytes
strings_of nil = []
strings_of (cons (Entry.string x) xs) = x ∷ strings_of xs
strings_of (cons _ xs) = strings_of xs

-- `iter().map(|x| Entry::String(x.clone())).collect()`
unfoldable pub entries_of : List Bytes → Entries
entries_of [] = nil
entries_of (x ∷ xs) = cons (Entry.string x) (entries_of xs)

status_of : Option Entry → Result (List Bytes)
unfolding strings_of
status_of (some (Entry.string x)) = ok (x ∷ [])
status_of (some (Entry.list x)) = ok (strings_of x)
status_of _ = err status_parsing

unfoldable pub status_from_textmap : TextMap → Result (List Bytes)
unfolding status_of
status_from_textmap map = status_of (get (bytes "status") map)
