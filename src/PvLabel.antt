-- ===== src/PvLabel.antt =====
-- src/pvlabel.rs: labels and headers of physical volumes, and their metadata areas. The byteorder
-- and crc crates are the parameter `c`.
pub mod Areas
pub mod Header
pub mod Mda
pub mod Iter
pub mod Fresh
pub mod Found
pub mod RoundTrip
pub mod FirstWrite
pub mod Fuel
pub mod Scan
pub mod Acts
use melvin.Prelude.{
  ℕ, zero, suc, ◌+◌, ◌-◌, ◌*◌, ◌%◌, ◌^◌, ◌==◌, not, if◌then◌else◌, Bytes, bytes, same, take, slice,
  from_utf8_lossy, Result, ok, err, panicked, ◌>>=◌, label_crc, label_misplaced, label_missing,
}
use melvin.Crates.{Crates}
use melvin.Util.{crc32_calc}
use melvin.Disk.{Store, write, read, slice_of}

abbrev pub sector_size : ℕ
sector_size = 512

abbrev label_scan_sectors : ℕ
label_scan_sectors = 4

abbrev pub id_len : ℕ
id_len = 32

abbrev pub label_size : ℕ
label_size = 32

abbrev pub label_sector : ℕ
label_sector = 1

abbrev pub mda_header_size : ℕ
mda_header_size = 512

abbrev pub default_mda_size : ℕ
default_mda_size = 1024 * 1024

abbrev pub extension_version : ℕ
extension_version = 1

pub record LabelHeader : Type 0 where
  pub id : Bytes
  pub sector : ℕ
  pub crc : ℕ
  pub offset : ℕ
  pub label : Bytes

module _ (c : Crates) where
  -- A sector that begins with "LABELONE".
  unfoldable pub label_of : ℕ → Bytes → Result LabelHeader
  label_of x sec_buf =
      let crc = c.read_u32 (slice sec_buf 16 20) in
      let sector = c.read_u64 (slice sec_buf 8 16) in
      if not (crc == crc32_calc c (slice sec_buf 20 sector_size))
      then err label_crc
      else if not (sector == x)
      then err label_misplaced
      else ok (record {
        id = from_utf8_lossy (take 8 sec_buf);
        sector = sector;
        crc = crc;
        offset = (c.read_u32 (slice sec_buf 20 24) + x * sector_size) % 2 ^ 32;
        label = from_utf8_lossy (slice sec_buf 24 32);
      })

  -- The `n` sectors from `x` on.
  unfoldable pub scan : ℕ → ℕ → Bytes → Result LabelHeader
  unfolding label_of
  scan zero x buf = err label_missing
  scan (suc n) x buf = slice_of buf (x * sector_size) (x * sector_size + sector_size) >>= λ sec_buf.
      let rest = scan n (x + 1) buf in
      if same (take 8 sec_buf) (bytes "LABELONE") then label_of x sec_buf else rest

  -- `LabelHeader::from_buf`
  abbrev pub label_from_buf : Bytes → Result LabelHeader
  label_from_buf buf = scan label_scan_sectors 0 buf

  -- `LabelHeader::initialize`, on a sector
  unfoldable pub initialize_label : Store → Store
  initialize_label sec_buf =
      let s1 = write 0 (bytes "LABELONE") sec_buf in
      let s2 = write 8 (c.write_u64 label_sector) s1 in
      let s3 = write 20 (c.write_u32 label_size) s2 in
      let s4 = write 24 (bytes "LVM2 001") s3 in
      let crc_val = crc32_calc c (read 20 (sector_size - 20) s4) in
      write 16 (c.write_u32 crc_val) s4
