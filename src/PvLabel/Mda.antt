-- ===== src/PvLabel/Mda.antt =====
-- The metadata areas of src/pvlabel.rs: their headers, and the text in them.
pub mod Text
pub mod RoundTrip
pub mod Stored
pub mod Metadata
pub mod Copies
pub mod Devices
pub mod Again
pub mod Acts
use melvin.Prelude.{
  ◌==◌, leb, ltb, not, Bool, true, false, if◌then◌else◌, ℕ, ◌-◌, [], ◌∷◌, Option, none, some, Bytes,
  slice, drop, take, same, Result, ok, err, panicked, ◌>>=◌, mda_checksum, mda_magic, mda_version,
  mda_start, mda_size,
}
use melvin.Crates.{Crates}
use melvin.Util.{crc32_calc}
use melvin.Disk.{Store, write, read, zeroed, zeros, Disk, read_into, write_all}
use melvin.PvLabel.{mda_header_size}
use melvin.PvLabel.Areas.{PvArea, RawLocn, next_locn}

abbrev pub mda_magic_bytes : Bytes
mda_magic_bytes =
    0x20 ∷ 0x4c ∷ 0x56 ∷ 0x4d ∷ 0x32 ∷ 0x20 ∷ 0x78 ∷ 0x5b ∷ 0x35 ∷ 0x41 ∷ 0x25 ∷ 0x72 ∷ 0x30 ∷ 0x4e
    ∷ 0x2a ∷ 0x3e ∷ []

-- `b as u32`
abbrev pub bool_u32 : Bool → ℕ
bool_u32 true = 1
bool_u32 false = 0

abbrev pub first_locn : Option (RawLocn × Bytes) → Option RawLocn
first_locn none = none
first_locn (some (rl, _)) = some rl

module _ (c : Crates) where
  -- The checks of `read_mda_header` on the header's bytes.
  unfoldable pub check_header : PvArea → Bytes → Result (Option RawLocn)
  check_header area hdr =
      if not (c.read_u32 (take 4 hdr) == crc32_calc c (slice hdr 4 mda_header_size))
      then err mda_checksum
      else if not (same (slice hdr 4 20) mda_magic_bytes)
      then err mda_magic
      else if not (c.read_u32 (slice hdr 20 24) == 1)
      then err mda_version
      else if not (c.read_u64 (slice hdr 24 32) == area.offset)
      then err mda_start
      else if not (c.read_u64 (slice hdr 32 40) == area.size)
      then err mda_size
      else next_locn c (drop 40 hdr) >>= λ o. ok (first_locn o)

  unfoldable pub read_mda_header : PvArea → Disk → Result (Option RawLocn)
  read_mda_header area file =
      if ltb mda_header_size area.size
      then check_header area (read_into file area.offset (zeros mda_header_size))
      else panicked

  -- The header without its checksum.
  unfoldable pub mda_header_body : PvArea → RawLocn → Store
  mda_header_body area rl =
      let s1 = write 4 mda_magic_bytes zeroed in
      let s2 = write 20 (c.write_u32 1) s1 in
      let s3 = write 24 (c.write_u64 area.offset) s2 in
      let s4 = write 32 (c.write_u64 area.size) s3 in
      let s5 = write 40 (c.write_u64 rl.offset) s4 in
      let s6 = write 48 (c.write_u64 rl.size) s5 in
      let s7 = write 56 (c.write_u32 rl.checksum) s6 in
      write 60 (c.write_u32 (bool_u32 rl.ignored)) s7

  unfoldable pub mda_header : PvArea → RawLocn → Bytes
  mda_header area rl =
      let hdr = mda_header_body area rl in
      let csum = crc32_calc c (read 4 (mda_header_size - 4) hdr) in
      read 0 mda_header_size (write 0 (c.write_u32 csum) hdr)

  unfoldable pub write_mda_header : PvArea → Disk → RawLocn → Result Disk
  write_mda_header area file rl = write_all file area.offset (mda_header area rl)
