-- ===== src/PvLabel/Mda/Text.antt =====
-- `read_metadata` and `write_metadata` of src/pvlabel.rs.
use melvin.Prelude.{
  ◌+◌, ◌-◌, ◌%◌, ◌==◌, ◌&&◌, not, false, if◌then◌else◌, ℕ, List, [], ◌∷◌, ◌++◌, Option, none, some,
  Bytes, length, drop, take, Result, ok, err, panicked, ◌>>=◌, two64, text_checksum, no_metadata,
}
use Prim.Native.Nat.{min}
use melvin.Crates.{Crates}
use melvin.BTree.{bytes_ord}
use melvin.BTree
use melvin.Util.{crc32_calc, align_to}
use melvin.Disk.{zeros, Disk, Devices, read_into, write_all, open_file}
use melvin.PvLabel.{mda_header_size, sector_size}
use melvin.PvLabel.Areas.{PvArea, RawLocn}
use melvin.PvLabel.Mda.{read_mda_header, write_mda_header}
use melvin.Parser.TextMap.{TextMap}
use melvin.Parser.Reader.{buf_to_textmap}
use melvin.Parser.Printer.{textmap_to_buf}

-- Addition and subtraction of `u64`.
abbrev pub add_u64 : ℕ → ℕ → ℕ
add_u64 a b = (a + b) % two64

abbrev pub sub_u64 : ℕ → ℕ → ℕ
sub_u64 a b = (a + two64 - b) % two64

-- The text that a location names: up to the end of the area, and on from its front. The second
-- read goes to `text[size - first_read..]`.
unfoldable pub read_text : PvArea → RawLocn → Disk → Bytes
read_text pvarea rl f =
    let size = rl.size in
    let first_read = min (sub_u64 pvarea.size rl.offset) size in
    let text =
      read_into f (add_u64 pvarea.offset rl.offset) (zeros first_read)
      ++ zeros (size - first_read) in
    if first_read == size
    then text
    else take (size - first_read) text
      ++ read_into f (add_u64 pvarea.offset mda_header_size) (drop (size - first_read) text)

abbrev pub or_template : Option RawLocn → RawLocn
or_template none = record { offset = mda_header_size; size = 0; checksum = 0; ignored = false }
or_template (some rl) = rl

-- Where the next text starts in the area.
unfoldable pub start_off : PvArea → RawLocn → ℕ
start_off pvarea rl =
    min mda_header_size (align_to (add_u64 rl.offset rl.size) sector_size % pvarea.size)

-- The text from `start` on, and what does not fit from the front of the area on.
unfoldable pub write_text : PvArea → ℕ → Bytes → Disk → Result Disk
write_text pvarea start text f = do
  let tail_space = pvarea.size - start
  let written = min tail_space (length text)
  f1 ←
      (if tail_space == 0
        then ok f
        else write_all f (add_u64 pvarea.offset start) (take written text))
  if written == length text
      then ok f1
      else write_all f1 (add_u64 pvarea.offset mda_header_size) (drop written text)

module _ (c : Crates) where
  -- `PvHeader::read_metadata` over the areas of an open device
  unfoldable pub read_areas : List PvArea → Disk → Result TextMap
  read_areas [] f = err no_metadata
  read_areas (pvarea ∷ areas) f =
      let rest = read_areas areas f in
      read_mda_header c pvarea f >>= λ o. elim o [
        | none ↦ rest
        | some rl ↦
            if rl.ignored
            then rest
            else if not (rl.checksum == crc32_calc c (read_text pvarea rl f))
            then err text_checksum
            else buf_to_textmap (read_text pvarea rl f)
      ]

  unfoldable pub read_metadata : Bytes → List PvArea → Devices → Result TextMap
  read_metadata dev_path areas devices = open_file dev_path devices >>= λ f. read_areas areas f

  -- One area of `write_metadata`; the assertions panic.
  unfoldable pub write_area : PvArea → Bytes → Disk → Result Disk
  write_area pvarea text f = do
    o ← read_mda_header c pvarea f
    let rl = or_template o
    let start = start_off pvarea rl
    if rl.ignored
        then ok f
        else if (start % sector_size == 0) && ((pvarea.size - start) % sector_size == 0)
        then (do
          f1 ← write_text pvarea start text f
          write_mda_header c pvarea f1 (record {
            offset = start;
            size = length text;
            checksum = crc32_calc c text;
            ignored = rl.ignored;
          }))
        else panicked

  unfoldable pub write_areas : List PvArea → Bytes → Disk → Result Disk
  write_areas [] text f = ok f
  write_areas (pvarea ∷ areas) text f = write_area pvarea text f >>= λ f1. write_areas areas text f1

  -- `PvHeader::write_metadata`; the text ends with one null.
  unfoldable pub write_metadata : Bytes → List PvArea → TextMap → Devices → Result Devices
  write_metadata dev_path areas map devices = do
    f ← open_file dev_path devices
    buf ← textmap_to_buf map
    f1 ← write_areas areas (buf ++ 0 ∷ []) f
    ok (BTree.insert dev_path f1 devices)
