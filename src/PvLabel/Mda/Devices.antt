-- ===== src/PvLabel/Mda/Devices.antt =====
-- `write_metadata` and `read_metadata` of src/pvlabel.rs, between text maps and devices.
use melvin.Prelude.{
  All, ◌==◌, ℕ, ◌+◌, ◌*◌, ◌/◌, ◌%◌, ◌<◌, ◌≡◌, ◌⊎◌, refl, ap, ◌∙◌, ◌∷◌, [], ◌++◌, List, none, Bytes,
  ok, err, two64, arith, inl, inr, no_metadata, same_refl, Bool-cases,
}
use Prim.Native.Nat.{min}
use native.Mathlib.Omega.{div_any}
use melvin.Crates.{Crates, IsLittleEndian}
use melvin.BTree.{BTreeMap, bytes_ord}
use melvin.BTree
use melvin.BTree.Laws.{get-insert}
use melvin.Util.{align_to}
use melvin.Util.Align.{align_to-bounds}
use melvin.Disk.{Disk, Devices, open_file}
use melvin.PvLabel.Areas.{PvArea, RawLocn}
use melvin.PvLabel.Mda.{read_mda_header}
use melvin.PvLabel.Mda.Text.{
  add_u64, read_areas, start_off, write_area, read_metadata, write_metadata,
}
use melvin.PvLabel.Mda.Stored.{
  IsReady, write_area-ready, rewritten, rewritten-IsStored, read_mda_header-stored,
}
use melvin.Parser.Reader.{buf_to_textmap}
use melvin.PvLabel.Mda.Metadata.{AreReady, ArePairwiseApart}
use melvin.PvLabel.Mda.Copies.{AreRead, write_areas-read_areas}
use melvin.Parser.TextMap.{TextMap}
use melvin.Parser.Printer.{textmap_to_buf}
use melvin.Parser.Printable.{IsPrintable}
use melvin.Parser.RoundTrip.{buf_to_textmap-textmap_to_buf}

pub open_file-insert :
    (path : Bytes) (d : Disk) (devices : Devices)
    → open_file path (BTree.insert path d devices) ≡ ok d
unfolding open_file
open_file-insert path d devices = rw (get-insert path path d devices, same_refl path) refl

-- What is read from the areas of a device is read from the device.
All-read_metadata :
    (c : Crates) (path text : Bytes) (map : TextMap) (d : Disk) (devices : Devices)
    (areas : List PvArea)
    → open_file path devices ≡ ok d
    → buf_to_textmap text ≡ ok map
    → AreRead c text areas d
    → All (λ a. read_metadata c path (a ∷ []) devices ≡ ok map) areas
unfolding read_metadata
All-read_metadata c path text map d devices [] opened reads each = tt
All-read_metadata c path text map d devices (a ∷ areas) opened reads (here, each) =
    (rw opened (here ∙ reads), All-read_metadata c path text map d devices areas opened reads each)

-- If byteorder is little-endian, every metadata area can be written to behind its header, and no two share a byte, then a map that the format can
-- express is written to the device, and read again: by `read_metadata` with all areas, and with each area alone.
pub metadata_round_trip :
    (c : Crates) (path : Bytes) (area : PvArea) (areas : List PvArea) (map : TextMap) (text : Bytes)
    (devices : Devices) (d : Disk)
    → IsLittleEndian c
    → IsPrintable map
    → textmap_to_buf map ≡ ok text
    → open_file path devices ≡ ok d
    → AreReady c (text ++ 0 ∷ []) (area ∷ areas) d
    → ArePairwiseApart (area ∷ areas)
    → (devices2 : Devices) × (write_metadata c path (area ∷ areas) map devices ≡ ok devices2)
      × (read_metadata c path (area ∷ areas) devices2 ≡ ok map)
      × All (λ a. read_metadata c path (a ∷ []) devices2 ≡ ok map) (area ∷ areas)
unfolding write_metadata read_metadata
metadata_round_trip c path area areas map text devices d le printable printed opened ready apart =
    let (d2, written, found, each) =
      write_areas-read_areas c (text ++ 0 ∷ []) area areas d le ready apart in
    let (buf, e, _, reads) = buf_to_textmap-textmap_to_buf map printable in
    let same_text : text ≡ buf = cc in
    (
      BTree.insert path d2 devices,
      rw (opened, printed, written) refl,
      rw (open_file-insert path d2 devices) (found ∙ rw same_text reads),
      All-read_metadata c path (text ++ 0 ∷ []) map d2 (BTree.insert path d2 devices) (area ∷ areas)
          (open_file-insert path d2 devices) (rw same_text reads) each,
    )

remainder_sectors : (n size : ℕ) → n % 512 ≡ 0 → size % 512 ≡ 0 → n % size % 512 ≡ 0
remainder_sectors n size h k =
    let split : size ≡ 512 * (size / 512) = omega arith in
    let product : size * (n / size) ≡ 512 * (size / 512 * (n / size)) =
      ap (λ s. s * (n / size)) split ∙ grind arith in
    let whole = div_any n size in omega arith

placed_at : (r : ℕ) → r % 512 ≡ 0 → ((r ≡ 0) × (min 512 r ≡ 0)) ⊎ ((0 < r) × (min 512 r ≡ 512))
placed_at r h = elim (Bool-cases (r == 0)) [
  | inl front ↦ inl (ground arith, ground arith)
  | inr behind ↦ let above : 0 < r = ground arith in inr (above, omega arith)
]

-- A text is put at the front of an area of whole sectors, or right behind its header, wherever the text before it ended: at the front
-- exactly if that end, rounded up to a sector, is a multiple of the size of the area.
pub start_off-cases :
    (area : PvArea) (rl : RawLocn)
    → area.size % 512 ≡ 0
    → 512 < area.size
    → rl.offset + rl.size + 511 < two64
    → ((align_to (rl.offset + rl.size) 512 % area.size ≡ 0) × (start_off area rl ≡ 0))
      ⊎ ((0 < align_to (rl.offset + rl.size) 512 % area.size) × (start_off area rl ≡ 512))
unfolding start_off
start_off-cases area rl sectors roomy no_wrap =
    let end = rl.offset + rl.size in
    let sum : add_u64 rl.offset rl.size ≡ end = omega arith in
    let (_, _, whole) = align_to-bounds end 9 54 refl (omega arith) in
    let rest = remainder_sectors (align_to end 512) area.size whole sectors in
    rw sum (placed_at (align_to end 512 % area.size) rest)

-- If byteorder is little-endian, a text that is put at the front of an area is lost: the location that is written has offset 0, which is read as no location, and
-- `read_metadata` finds nothing in that area: with no other area it fails with the error that there is no metadata.
pub write_area-front_lost :
    (c : Crates) (area : PvArea) (text : Bytes) (d : Disk)
    → IsLittleEndian c
    → IsReady c 0 text area d
    → (d2 : Disk) × (write_area c area text d ≡ ok d2)
      × (read_mda_header c area d2 ≡ ok none)
      × (read_areas c (area ∷ []) d2 ≡ err no_metadata)
unfolding read_areas
write_area-front_lost c area text d le ready =
    let d2 = rewritten c area 0 text d in
    let none_found =
      read_mda_header-stored c 0 text area d2 le (rewritten-IsStored c 0 text area d ready)
        (omega arith) in
    (d2, write_area-ready c 0 text area d ready refl (omega arith), none_found, rw none_found refl)
