-- ===== src/PvLabel/FirstWrite.antt =====
-- The first metadata that is written to a device of src/pvlabel.rs that was just initialized.
use melvin.Prelude.{
  ℕ, ◌+◌, ◌-◌, ◌<◌, ◌≤◌, ◌≡◌, refl, ◌∙◌, ◌∷◌, [], ◌++◌, Bytes, length, Result, ok, err, no_metadata,
  two64, arith, inl, All, ◌≢◌, none,
}
use native.Mathlib.Nat.{mod-eq_of_lt}
use melvin.Crates.{Crates, IsLittleEndian}
use melvin.BTree.{bytes_ord}
use melvin.BTree
use melvin.Util.{align_to}
use melvin.Util.Hyphens.{without_hyphens-hyphenate_uuid}
use melvin.Disk.{Disk, Devices, read, write, open_file}
use melvin.Disk.Laws.{read-write_outside}
use melvin.PvLabel.{initialize_label}
use melvin.PvLabel.Areas.{PvArea}
use melvin.PvLabel.Header.{PvHeader, initialize, fresh_header, header_sector}
use melvin.PvLabel.Mda.{mda_header, read_mda_header}
use melvin.PvLabel.Mda.Text.{read_areas, start_off, or_template, read_metadata, write_metadata}
use melvin.PvLabel.Mda.RoundTrip.{read_mda_header-at, read-with_header, with_header}
use melvin.PvLabel.Mda.Stored.{IsPlaced, IsReady}
use melvin.PvLabel.Mda.Devices.{metadata_round_trip, open_file-insert}
use melvin.PvLabel.RoundTrip.{zero_locn, initialized, initialize-initialized}
use melvin.Parser.TextMap.{TextMap}
use melvin.Parser.Printer.{textmap_to_buf}
use melvin.Parser.Printable.{IsPrintable}

abbrev pub mda0 : PvArea
mda0 = record { offset = 4096; size = 1048576 - 4096 }

abbrev pub mda1 : Disk → PvArea
mda1 d = record { offset = d.size - 1048576; size = 1048576 }

template-start : (area : PvArea) → 512 < area.size → start_off area (or_template none) ≡ 512
unfolding start_off align_to
template-start area h = rw (mod-eq_of_lt h) refl

module _ (c : Crates) (le : IsLittleEndian c) (simple : Bytes) (d : Disk) (big : 2101248 ≤ d.size)
    (fits : d.size < two64) where
  mda1-unwritten : read_mda_header c (mda1 d) (initialized c simple d) ≡ ok none
  mda1-unwritten =
      read_mda_header-at c (mda1 d) zero_locn (initialized c simple d) le
        (record { offset = omega arith; size = omega arith })
        (record { offset = omega arith; size = omega arith; checksum = omega arith }) (omega arith)
        (omega arith)
        (read-with_header c (mda1 d) zero_locn (
          with_header c mda0 zero_locn (record d {
            store =
                write 512 (read 0 512 (initialize_label c (header_sector c simple d.size))) d.store;
          })))

  mda0-unwritten : read_mda_header c mda0 (initialized c simple d) ≡ ok none
  mda0-unwritten =
      let d1 : Disk = record d {
        store = write 512 (read 0 512 (initialize_label c (header_sector c simple d.size))) d.store;
      } in
      read_mda_header-at c mda0 zero_locn (initialized c simple d) le
        (record { offset = omega arith; size = omega arith })
        (record { offset = omega arith; size = omega arith; checksum = omega arith }) (omega arith)
        (omega arith)
        (read-write_outside 4096 512 (d.size - 1048576) (mda_header c (mda1 d) zero_locn)
            (with_header c mda0 zero_locn d1).store (inl (omega arith))
          ∙ read-with_header c mda0 zero_locn d1)

module _ (c : Crates) (le : IsLittleEndian c) (simple text : Bytes) (d : Disk)
    (big : 2101248 ≤ d.size) (fits : d.size < two64)
    (short : 512 + length text ≤ 1048576 - 4096) where
  pub mda1-IsReady : IsReady c 512 text (mda1 d) (initialized c simple d)
  mda1-IsReady =
      let placed : IsPlaced (mda1 d) (initialized c simple d) = record {
        fits = record { offset = omega arith; size = omega arith };
        sectors = refl;
        roomy = omega arith;
        inside = omega arith;
        no_wrap = omega arith;
      } in
      record {
        placed = placed;
        locn = none;
        readable = mda1-unwritten c le simple d big fits;
        active = refl;
        starts = template-start (mda1 d) (omega arith);
        fits = omega arith;
      }

  pub mda0-IsReady : IsReady c 512 text mda0 (initialized c simple d)
  mda0-IsReady =
      let placed : IsPlaced mda0 (initialized c simple d) = record {
        fits = record { offset = omega arith; size = omega arith };
        sectors = refl;
        roomy = omega arith;
        inside = omega arith;
        no_wrap = omega arith;
      } in
      record {
        placed = placed;
        locn = none;
        readable = mda0-unwritten c le simple d big fits;
        active = refl;
        starts = template-start mda0 (omega arith);
        fits = short;
      }

-- A device that was just initialized has no metadata.
pub read_metadata-initialized :
    (c : Crates) (simple path : Bytes) (devices : Devices) (d : Disk)
    → IsLittleEndian c
    → open_file path devices ≡ ok (initialized c simple d)
    → 2101248 ≤ d.size
    → d.size < two64
    → read_metadata c path (mda0 ∷ mda1 d ∷ []) devices ≡ err no_metadata
unfolding read_metadata read_areas
read_metadata-initialized c simple path devices d le opened big fits =
    rw (opened, mda0-unwritten c le simple d big fits, mda1-unwritten c le simple d big fits) refl

-- If byteorder is little-endian, the identifier has 32 bytes, ASCII and none a hyphen, the device has at least 2101248 bytes and fewer than 2^64, and the text of a
-- map that the format can express fits the first metadata area, then the device is initialized, the map is written to its two
-- areas, and reading gives the map, with both areas, and with either one alone.
pub first_metadata_round_trip :
    (c : Crates) (blkdev_size : Disk → Result ℕ) (simple path : Bytes) (devices : Devices)
    (d : Disk) (map : TextMap) (text : Bytes)
    → IsLittleEndian c
    → open_file path devices ≡ ok d
    → blkdev_size d ≡ ok d.size
    → length simple ≡ 32
    → All (λ b. b < 128) simple
    → All (λ b. b ≢ b'-') simple
    → 2101248 ≤ d.size
    → d.size < two64
    → IsPrintable map
    → textmap_to_buf map ≡ ok text
    → 512 + length (text ++ 0 ∷ []) ≤ 1048576 - 4096
    → (pvh : PvHeader) × (devices2 devices3 : Devices) × (initialize c blkdev_size simple path
          devices
        ≡ ok (pvh, devices2))
      × (write_metadata c path pvh.metadata_areas map devices2 ≡ ok devices3)
      × (pvh.metadata_areas ≡ mda0 ∷ mda1 d ∷ [])
      × (read_metadata c path pvh.metadata_areas devices3 ≡ ok map)
      × All (λ a. read_metadata c path (a ∷ []) devices3 ≡ ok map) pvh.metadata_areas
first_metadata_round_trip c blkdev_size simple path devices d map text h opened sized len ascii
      plain big fits printable printed short =
    let (uuid, named, stripped) = without_hyphens-hyphenate_uuid simple ascii plain len in
    let d2 = initialized c simple d in
    let devices2 = BTree.insert path d2 devices in
    let (devices3, written, found, each) =
      metadata_round_trip c path mda0 (mda1 d ∷ []) map text devices2 d2 h printable printed
        (open_file-insert path d2 devices)
        (
          mda0-IsReady c h simple (text ++ 0 ∷ []) d big fits short,
          (mda1-IsReady c h simple (text ++ 0 ∷ []) d big fits short, tt),
        )
        ((inl (omega arith), tt), (tt, tt)) in
    (
      fresh_header uuid d.size path,
      devices2,
      devices3,
      initialize-initialized c simple path d len big blkdev_size uuid devices opened sized named
          stripped,
      written,
      refl,
      found,
      each,
    )
