-- ===== src/PvLabel/Fresh.antt =====
-- The sector with the label and the header that `PvHeader::initialize` of src/pvlabel.rs writes.
use melvin.Prelude.{
  ℕ, ◌+◌, ◌-◌, ◌%◌, ◌<◌, ◌≤◌, ◌≡◌, refl, sym, ap, ◌∙◌, ◌^◌, Bytes, bytes, slice, take, length, ok,
  two64, arith, inr, from_utf8_lossy,
}
use melvin.Crates.{Crates, little_endian, le, read_le, read_u32-le, read_u64-le}
use melvin.Util.{crc32_calc, crc32_calc-lt}
use melvin.Disk.{Store, write, read, zeroed}
use melvin.Disk.Laws.{read-write_outside, read-write, slice-read, take-read}
use melvin.PvLabel.{LabelHeader, initialize_label, label_of}
use melvin.PvLabel.Header.{header_sector}
use melvin.PvLabel.Mda.RoundTrip.{eq_self}

module _ (c : Crates) (uuid : Bytes) (dev_size : ℕ) (len : length uuid ≡ 32)
    (fits : dev_size < two64) (big : 1048576 < dev_size) where
  abbrev codec : Crates
  codec = little_endian c

  abbrev pub sector : Store
  sector = initialize_label codec (header_sector codec uuid dev_size)

  -- What is left zero.
  blank : (i n : ℕ) → 64 ≤ i → read i n (write 32 uuid zeroed) ≡ read i n zeroed
  blank i n h = read-write_outside i n 32 uuid zeroed (inr (rw len h))

  pub sector-uuid : read 32 32 sector ≡ uuid
  unfolding read write initialize_label header_sector
  sector-uuid = ap (λ n. read 32 n (write 32 uuid zeroed)) (sym len) ∙ read-write 32 uuid zeroed

  pub sector-size : read_le (take 8 (read 64 8 sector)) ≡ dev_size
  unfolding read write initialize_label header_sector
  sector-size = read_u64-le dev_size fits

  pub sector-da_offset : read_le (take 8 (read 72 8 sector)) ≡ 1048576
  unfolding read write initialize_label header_sector
  sector-da_offset = refl

  pub sector-da_size : read_le (take 8 (read 80 8 sector)) ≡ 0
  unfolding read write initialize_label header_sector
  sector-da_size = refl

  pub sector-da_end : read_le (take 8 (read 88 8 sector)) ≡ 0
  unfolding read write initialize_label header_sector
  sector-da_end = ap (λ b. read_le (take 8 b)) (blank 88 8 (omega arith))

  pub sector-mda0_offset : read_le (take 8 (read 104 8 sector)) ≡ 4096
  unfolding read write initialize_label header_sector
  sector-mda0_offset = refl

  pub sector-mda0_size : read_le (take 8 (read 112 8 sector)) ≡ 1048576 - 4096
  unfolding read write initialize_label header_sector
  sector-mda0_size = refl

  pub sector-mda1_offset : read_le (take 8 (read 120 8 sector)) ≡ dev_size - 1048576
  unfolding read write initialize_label header_sector
  sector-mda1_offset = read_u64-le (dev_size - 1048576) (omega arith)

  pub sector-mda1_size : read_le (take 8 (read 128 8 sector)) ≡ 1048576
  unfolding read write initialize_label header_sector
  sector-mda1_size = refl

  pub sector-mda_end : read_le (take 8 (read 136 8 sector)) ≡ 0
  unfolding read write initialize_label header_sector
  sector-mda_end = ap (λ b. read_le (take 8 b)) (blank 136 8 (omega arith))

  pub sector-ext_version : read_le (take 4 (read 152 4 sector)) ≡ 1
  unfolding read write initialize_label header_sector
  sector-ext_version = refl

  pub sector-ext_flags : read_le (take 4 (read 156 4 sector)) ≡ 0
  unfolding read write initialize_label header_sector
  sector-ext_flags = ap (λ b. read_le (take 4 b)) (blank 156 4 (omega arith))

  pub sector-ba_end : read_le (take 8 (read 160 8 sector)) ≡ 0
  unfolding read write initialize_label header_sector
  sector-ba_end = ap (λ b. read_le (take 8 b)) (blank 160 8 (omega arith))

  pub sector-magic : take 8 (read 0 512 sector) ≡ bytes "LABELONE"
  unfolding read write initialize_label header_sector
  sector-magic = take-read 0 8 512 sector (omega arith)

  sector-crc :
      read_le (take 4 (slice (read 0 512 sector) 16 20))
      ≡ crc32_calc codec (slice (read 0 512 sector) 20 512)
  unfolding read write initialize_label
  sector-crc =
      let rest = write 24 (bytes "LVM2 001") (
        write 20 (le 4 32)
          (write 8 (le 8 1) (write 0 (bytes "LABELONE") (header_sector codec uuid dev_size)))) in
      let csum = crc32_calc codec (read 20 492 rest) in
      ap (λ b. read_le (take 4 b)) (slice-read 0 16 20 512 sector (omega arith) (omega arith))
      ∙ read_u32-le csum (crc32_calc-lt codec (read 20 492 rest))
      ∙ sym (
          ap (crc32_calc codec) (
            slice-read 0 20 512 512 sector (omega arith) (omega arith)
            ∙ read-write_outside 20 492 16 (le 4 csum) rest (inr (omega arith))))

  sector-number : read_le (take 8 (slice (read 0 512 sector) 8 16)) ≡ 1
  unfolding read write initialize_label
  sector-number =
      ap (λ b. read_le (take 8 b)) (slice-read 0 8 16 512 sector (omega arith) (omega arith))

  sector-offset : read_le (take 4 (slice (read 0 512 sector) 20 24)) ≡ 32
  unfolding read write initialize_label
  sector-offset =
      ap (λ b. read_le (take 4 b)) (slice-read 0 20 24 512 sector (omega arith) (omega arith))

  abbrev fresh_label : Bytes → LabelHeader
  fresh_label sec = record {
    id = from_utf8_lossy (take 8 sec);
    sector = read_le (take 8 (slice sec 8 16));
    crc = read_le (take 4 (slice sec 16 20));
    offset = (read_le (take 4 (slice sec 20 24)) + 512) % 2 ^ 32;
    label = from_utf8_lossy (slice sec 24 32);
  }

  -- The label is accepted in sector 1, and the header lies 32 bytes behind it.
  pub label_of-sector :
      (h : LabelHeader) × (label_of codec 1 (read 0 512 sector) ≡ ok h) × (h.offset ≡ 544)
  unfolding label_of
  label_of-sector = (
    fresh_label (read 0 512 sector),
    rw (sector-crc, sector-number, eq_self (crc32_calc codec (slice (read 0 512 sector) 20 512)))
        refl,
    rw sector-offset refl,
  )
