-- ===== src/Pv.antt =====
-- src/pv.rs: physical volumes and their text maps. `from_u64` and `to_u64` are the conversions
-- between `u64` and the `Device` of the devicemapper crate.
pub mod RoundTrip
pub mod Path
use melvin.Prelude.{
  ℕ, ℤ, Option, none, some, Bytes, bytes, as_i64, as_u64, parse_i64, Result, ok, err, ◌>>=◌, ok_or,
  device_parsing, pv_parsing,
}
use melvin.Types.{Pv}
use melvin.Parser.TextMap.{
  Entry, TextMap, empty, insert, get, i64_from_textmap, string_from_textmap, list_from_textmap,
  strings_of, entries_of, status_from_textmap,
}

-- A device number is a number, or text to be read as an `i64`.
device_number : Entry → Result ℤ
device_number (Entry.string s) = ok_or (parse_i64 s) device_parsing
device_number (Entry.number x) = ok x
device_number _ = err device_parsing

unfoldable pub dev_from_textmap : {D : Type 0} → (ℕ → D) → TextMap → Result D
unfolding device_number
dev_from_textmap from_u64 map = do
  entry ← ok_or (get (bytes "device") map) device_parsing
  val ← device_number entry
  ok (from_u64 (as_u64 val))

unfoldable pub from_textmap : {D : Type 0} → (ℕ → D) → TextMap → Result (Pv D)
unfolding dev_from_textmap
from_textmap from_u64 map = do
  id ← ok_or (string_from_textmap map (bytes "id")) pv_parsing
  device ← dev_from_textmap from_u64 map
  dev_size ← ok_or (i64_from_textmap map (bytes "dev_size")) pv_parsing
  pe_start ← ok_or (i64_from_textmap map (bytes "pe_start")) pv_parsing
  pe_count ← ok_or (i64_from_textmap map (bytes "pe_count")) pv_parsing
  status ← status_from_textmap map
  flags ← ok_or (list_from_textmap map (bytes "flags")) pv_parsing
  ok (record {
    id = id;
    device = device;
    status = status;
    flags = strings_of flags;
    dev_size = as_u64 dev_size;
    pe_start = as_u64 pe_start;
    pe_count = as_u64 pe_count;
  })

unfoldable pub to_textmap : {D : Type 0} → (D → ℕ) → Pv D → TextMap
to_textmap to_u64 pv =
    let m1 = insert (bytes "id") (Entry.string pv.id) empty in
    let m2 = insert (bytes "device") (Entry.number (as_i64 (to_u64 pv.device))) m1 in
    let m3 = insert (bytes "status") (Entry.list (entries_of pv.status)) m2 in
    let m4 = insert (bytes "flags") (Entry.list (entries_of pv.flags)) m3 in
    let m5 = insert (bytes "dev_size") (Entry.number (as_i64 pv.dev_size)) m4 in
    let m6 = insert (bytes "pe_start") (Entry.number (as_i64 pv.pe_start)) m5 in
    insert (bytes "pe_count") (Entry.number (as_i64 pv.pe_count)) m6
