-- ===== src/Tests/Devices.antt =====
-- Runs of the model of src/pvlabel.rs and src/util.rs, and its theorems at concrete inputs.
use melvin.Prelude.{
  All, ◌+◌, ◌%◌, ◌⊎◌, ◌≤◌, ◌<◌, ◌≡◌, ◌≢◌, refl, false, ℕ, [], ◌∷◌, ◌++◌, none, some, arith, Bytes,
  bytes, pos, ok, err, out_of_fuel, length, same, no_metadata, take, ◌∙◌, ◌==◌, format_i64,
}
use melvin.BTree
use melvin.BTree.{bytes_ord}
use melvin.Crates.{Crates, le, read_le, IsLittleEndian}
use melvin.Util.{align_to}
use melvin.Util.Align.{align_to-bounds}
use melvin.Disk.{Disk, Devices, zeroed, read}
use melvin.PvLabel.Areas.{PvArea, RawLocn}
use melvin.PvLabel.Header.{PvHeader, initialize, find_in_dev}
use melvin.PvLabel.Mda.{read_mda_header, write_mda_header}
use melvin.PvLabel.Mda.Text.{start_off, read_areas, write_area, read_metadata, write_metadata}
use melvin.PvLabel.Mda.RoundTrip.{
  mda_header_round_trip, with_header, read_mda_header-at, read-with_header,
}
use melvin.PvLabel.Mda.Stored.{IsReady}
use melvin.PvLabel.Mda.Devices.{
  metadata_round_trip, start_off-cases, write_area-front_lost, open_file-insert,
}
use melvin.PvLabel.RoundTrip.{find_in_dev-initialize}
use melvin.PvLabel.FirstWrite.{mda0, mda1, first_metadata_round_trip}
use melvin.PvLabel.Fuel.{find_in_dev-ne-out_of_fuel}
use melvin.Tests.{digits, plain_bytes}
use melvin.Parser.TextMap.{Entry, TextMap, empty, bind}
use melvin.Parser.Printer.{textmap_to_buf}
use melvin.Parser.Printable.{IsPrintable}

-- A little-endian codec, and a checksum that sums the bytes.
abbrev sum : Bytes → ℕ
sum [] = 0
sum (b ∷ bs) = b + sum bs

abbrev pub codec : Crates
codec = record {
  read_u32 = λ b. read_le (take 4 b);
  read_u64 = λ b. read_le (take 8 b);
  write_u32 = le 4;
  write_u64 = le 8;
  make_table = λ seed. seed ∷ [];
  crc_update = λ start table buf. start + sum buf;
}

pub codec-IsLittleEndian : IsLittleEndian codec
codec-IsLittleEndian = record {
  reads_u32 = λ b. refl;
  reads_u64 = λ b. refl;
  writes_u32 = λ n. refl;
  writes_u64 = λ n. refl;
}

-- A device of 8 MiB.
abbrev pub blank : Disk
blank = record { size = 8388608; store = zeroed }

abbrev area : PvArea
area = record { offset = 4096; size = 1044480 }

abbrev pub path : Bytes
path = bytes "/dev/sda1"

abbrev pub attached : Devices
attached = BTree.insert path blank []

abbrev small_map : TextMap
small_map = bind (bytes "seqno") (Entry.number (pos 7)) empty

abbrev small_text : Bytes
small_text = bytes "seqno = 7\n"

small_map-IsPrintable : IsPrintable small_map
small_map-IsPrintable = ((refl, (refl, (refl, (refl, (refl, tt))))), omega arith, tt, tt)

small_map-small_text : textmap_to_buf small_map ≡ ok small_text
unfolding textmap_to_buf format_i64
small_map-small_text = refl

align_to-bounds_example :
    (1000 ≤ align_to 1000 512) × (align_to 1000 512 < 1512) × (align_to 1000 512 % 512 ≡ 0)
align_to-bounds_example = align_to-bounds 1000 9 54 refl (omega arith)

-- A text of 100 bytes behind the header.
abbrev early : RawLocn
early = record { offset = 512; size = 100; checksum = 99; ignored = false }

-- A text that ends with the area.
abbrev late : RawLocn
late = record { offset = 1043968; size = 400; checksum = 99; ignored = false }

mda_header_round_trip_example :
    (d : Disk) × (write_mda_header codec area blank early ≡ ok d)
    × (read_mda_header codec area d ≡ ok (some early))
mda_header_round_trip_example =
    mda_header_round_trip codec area early blank codec-IsLittleEndian
      (record { offset = omega arith; size = omega arith })
      (record { offset = omega arith; size = omega arith; checksum = omega arith }) (omega arith)
      (omega arith)

area-IsReady :
    (start : ℕ) (text : Bytes) (rl : RawLocn)
    → rl.offset < 1044480
    → rl.size < 1044480
    → rl.checksum < 100
    → (rl.offset == 0) ≡ false
    → rl.ignored ≡ false
    → start_off area rl ≡ start
    → start + length text ≤ area.size
    → IsReady codec start text area (with_header codec area rl blank)
area-IsReady start text rl h k l located active starts fits = record {
  placed = record {
    fits = record { offset = omega arith; size = omega arith };
    sectors = refl;
    roomy = omega arith;
    inside = omega arith;
    no_wrap = omega arith;
  };
  locn = some rl;
  readable =
      read_mda_header-at codec area rl (with_header codec area rl blank) codec-IsLittleEndian
        (record { offset = omega arith; size = omega arith })
        (record { offset = omega arith; size = omega arith; checksum = omega arith }) (omega arith)
        (omega arith) (read-with_header codec area rl blank)
      ∙ rw located refl;
  active = active;
  starts = starts;
  fits = fits;
}

metadata_round_trip_example :
    (devices : Devices) × (write_metadata codec path
        (area ∷ [])
        small_map
        (BTree.insert path (with_header codec area early blank) [])
      ≡ ok devices)
    × (read_metadata codec path (area ∷ []) devices ≡ ok small_map)
    × All (λ a. read_metadata codec path (a ∷ []) devices ≡ ok small_map) (area ∷ [])
unfolding start_off align_to
metadata_round_trip_example =
    metadata_round_trip codec path area [] small_map small_text
      (BTree.insert path (with_header codec area early blank) [])
      (with_header codec area early blank) codec-IsLittleEndian small_map-IsPrintable
      small_map-small_text (open_file-insert path (with_header codec area early blank) [])
      (
        area-IsReady 512 (small_text ++ 0 ∷ []) early (omega arith) (omega arith) (omega arith) refl
            refl refl (omega arith),
        tt,
      )
      (tt, tt)

start_off-cases_example :
    ((align_to 1044368 512 % 1044480 ≡ 0) × (start_off area late ≡ 0))
    ⊎ ((0 < align_to 1044368 512 % 1044480) × (start_off area late ≡ 512))
start_off-cases_example = start_off-cases area late refl (omega arith) (omega arith)

write_area-front_lost_example :
    (d : Disk) × (write_area codec area small_text (with_header codec area late blank) ≡ ok d)
    × (read_mda_header codec area d ≡ ok none)
    × (read_areas codec (area ∷ []) d ≡ err no_metadata)
unfolding start_off align_to
write_area-front_lost_example =
    write_area-front_lost codec area small_text (with_header codec area late blank)
      codec-IsLittleEndian
      (area-IsReady 0 small_text late (omega arith) (omega arith) (omega arith) refl refl refl
        (omega arith))

find_in_dev-initialize_example :
    (pvh : PvHeader) × (devices : Devices) × (initialize codec (λ d. ok d.size) digits path attached
      ≡ ok (pvh, devices))
    × (find_in_dev codec path devices ≡ ok pvh)
unfolding same read
find_in_dev-initialize_example =
    find_in_dev-initialize codec (λ d. ok d.size) digits path attached blank codec-IsLittleEndian
      (open_file-insert path blank []) refl refl (plain_bytes digits refl).0
      (plain_bytes digits refl).1 (omega arith) (omega arith) refl

first_metadata_round_trip_example :
    (pvh : PvHeader) × (devices2 devices3 : Devices) × (initialize codec
        (λ d. ok d.size)
        digits
        path
        attached
      ≡ ok (pvh, devices2))
    × (write_metadata codec path pvh.metadata_areas small_map devices2 ≡ ok devices3)
    × (pvh.metadata_areas ≡ mda0 ∷ mda1 blank ∷ [])
    × (read_metadata codec path pvh.metadata_areas devices3 ≡ ok small_map)
    × All (λ a. read_metadata codec path (a ∷ []) devices3 ≡ ok small_map) pvh.metadata_areas
first_metadata_round_trip_example =
    first_metadata_round_trip codec (λ d. ok d.size) digits path attached blank small_map small_text
      codec-IsLittleEndian (open_file-insert path blank []) refl refl (plain_bytes digits refl).0
      (plain_bytes digits refl).1 (omega arith) (omega arith) small_map-IsPrintable
      small_map-small_text (omega arith)

find_in_dev-ne-out_of_fuel_example : find_in_dev codec path attached ≢ out_of_fuel
find_in_dev-ne-out_of_fuel_example = find_in_dev-ne-out_of_fuel codec path attached
