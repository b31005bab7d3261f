-- ===== src/PvLabel/Mda/RoundTrip.antt =====
-- The header of a metadata area (src/pvlabel.rs), written and read again.
use melvin.Prelude.{
  ◌==◌, not, Bool, true, false, if◌then◌else◌, ℕ, ◌+◌, ◌%◌, ltb, ◌<◌, ◌≤◌, ◌≡◌, refl, sym, ap, ◌∙◌,
  ◌^◌, Option, none, some, Bytes, slice, drop, take, length, same_refl, ok, ◌>>=◌, two64, arith,
  inr,
}
use melvin.Crates.{
  Crates, IsLittleEndian, little_endian, IsLittleEndian-little_endian, le, read_le, read_u32-le,
  read_u64-le,
}
use melvin.Util.{crc32_calc, crc32_calc-lt}
use melvin.Disk.{Store, write, read, zeros, Disk}
use melvin.Disk.Laws.{
  slice-read, take-read, drop-read, read-write_outside, read-write, length-read, length-zeros,
  read_into-full, write_all-inside,
}
use melvin.PvLabel.{mda_header_size}
use melvin.PvLabel.Areas.{PvArea, RawLocn, next_locn}
use melvin.PvLabel.Iter.{next_locn-read}
use melvin.PvLabel.Mda.{
  mda_magic_bytes, bool_u32, first_locn, check_header, read_mda_header, mda_header_body, mda_header,
  write_mda_header,
}

pub record FitsArea (area : PvArea) : Type 0 where
  pub offset : area.offset < two64
  pub size : area.size < two64

pub record FitsLocn (rl : RawLocn) : Type 0 where
  pub offset : rl.offset < two64
  pub size : rl.size < two64
  pub checksum : rl.checksum < 2 ^ 32

-- An offset of 0 says that there is no location.
abbrev pub found_locn : RawLocn → Option RawLocn
found_locn rl = if rl.offset == 0 then none else some rl

pub eq_self : (n : ℕ) → (n == n) ≡ true
eq_self n = ground arith

-- A header that passes every check.
checks :
    (c : Crates) (area : PvArea) (hdr : Bytes)
    → c.read_u32 (take 4 hdr) ≡ crc32_calc c (slice hdr 4 512)
    → slice hdr 4 20 ≡ mda_magic_bytes
    → c.read_u32 (slice hdr 20 24) ≡ 1
    → c.read_u64 (slice hdr 24 32) ≡ area.offset
    → c.read_u64 (slice hdr 32 40) ≡ area.size
    → check_header c area hdr ≡ (next_locn c (drop 40 hdr) >>= λ o. ok (first_locn o))
unfolding check_header
checks c area hdr crc magic version start size =
    rw
      (
        crc,
        magic,
        version,
        start,
        size,
        eq_self (crc32_calc c (slice hdr 4 512)),
        same_refl mda_magic_bytes,
        eq_self area.offset,
        eq_self area.size,
      )
      refl

ignored-bool_u32 : (b : Bool) → not (bool_u32 b % 2 == 0) ≡ b
ignored-bool_u32 true = refl
ignored-bool_u32 false = refl

module _ (c : Crates) (area : PvArea) (rl : RawLocn) (fa : FitsArea area) (fl : FitsLocn rl) where
  abbrev codec : Crates
  codec = little_endian c

  abbrev body : Store
  body = mda_header_body codec area rl

  abbrev csum : ℕ
  csum = crc32_calc codec (read 4 508 body)

  abbrev whole : Store
  whole = write 0 (le 4 csum) body

  read-csum : read_le (take 4 (take 4 (read 0 512 whole))) ≡ csum
  read-csum =
      rw (take-read 0 4 512 whole (omega arith), read-write 0 (le 4 csum) body)
        (read_u32-le csum (crc32_calc-lt codec (read 4 508 body)))

  read-checked : slice (read 0 512 whole) 4 512 ≡ read 4 508 body
  read-checked =
      slice-read 0 4 512 512 whole (omega arith) (omega arith)
      ∙ read-write_outside 4 508 0 (le 4 csum) body (inr (omega arith))

  read-magic : slice (read 0 512 whole) 4 20 ≡ mda_magic_bytes
  unfolding read write mda_header_body
  read-magic = slice-read 0 4 20 512 whole (omega arith) (omega arith)

  read-version : read_le (take 4 (slice (read 0 512 whole) 20 24)) ≡ 1
  unfolding read write mda_header_body
  read-version =
      ap (λ b. read_le (take 4 b)) (slice-read 0 20 24 512 whole (omega arith) (omega arith))

  read-start : read_le (take 8 (slice (read 0 512 whole) 24 32)) ≡ area.offset
  unfolding read write mda_header_body
  read-start =
      ap (λ b. read_le (take 8 b)) (slice-read 0 24 32 512 whole (omega arith) (omega arith))
      ∙ read_u64-le area.offset fa.offset

  read-size : read_le (take 8 (slice (read 0 512 whole) 32 40)) ≡ area.size
  unfolding read write mda_header_body
  read-size =
      ap (λ b. read_le (take 8 b)) (slice-read 0 32 40 512 whole (omega arith) (omega arith))
      ∙ read_u64-le area.size fa.size

  locn-offset : read_le (take 8 (read 40 8 whole)) ≡ rl.offset
  unfolding read write mda_header_body
  locn-offset = read_u64-le rl.offset fl.offset

  locn-size : read_le (take 8 (read 48 8 whole)) ≡ rl.size
  unfolding read write mda_header_body
  locn-size = read_u64-le rl.size fl.size

  locn-checksum : read_le (take 4 (read 56 4 whole)) ≡ rl.checksum
  unfolding read write mda_header_body
  locn-checksum = read_u32-le rl.checksum fl.checksum

  locn-flags : read_le (take 4 (read 60 4 whole)) ≡ bool_u32 rl.ignored
  unfolding read write mda_header_body
  locn-flags = read_u32-le (bool_u32 rl.ignored) (small rl.ignored)
    where
      small : (b : Bool) → bool_u32 b < 2 ^ 32
      small true = omega arith
      small false = omega arith

  read-locn :
      (next_locn codec (drop 40 (read 0 512 whole)) >>= λ o. ok (first_locn o)) ≡ ok (found_locn rl)
  read-locn =
      rw
        (
          drop-read 0 40 512 472 whole refl,
          next_locn-read codec 40 472 whole (omega arith),
          locn-offset,
          locn-size,
          locn-checksum,
          locn-flags,
          ignored-bool_u32 rl.ignored,
        )
        (chosen (rl.offset == 0))
    where
      chosen :
          (b : Bool)
          → ((if b then ok none else ok (some (rl, read 64 448 whole))) >>= λ o. ok (first_locn o))
            ≡ ok (if b then none else some rl)
      chosen true = refl
      chosen false = refl

  check_header-mda_header : check_header codec area (mda_header codec area rl) ≡ ok (found_locn rl)
  unfolding mda_header
  check_header-mda_header =
      checks codec area (read 0 512 whole) (read-csum ∙ sym (ap (crc32_calc codec) read-checked))
        read-magic read-version read-start read-size
      ∙ read-locn

pub length-mda_header :
    (c : Crates) (area : PvArea) (rl : RawLocn) → length (mda_header c area rl) ≡ 512
unfolding mda_header
length-mda_header c area rl = length-read 0 512 _

-- The header of an area that holds it.
pub read_mda_header-at :
    (c : Crates) (area : PvArea) (rl : RawLocn) (d : Disk)
    → IsLittleEndian c
    → FitsArea area
    → FitsLocn rl
    → mda_header_size < area.size
    → area.offset + mda_header_size ≤ d.size
    → read area.offset 512 d.store ≡ mda_header c area rl
    → read_mda_header c area d ≡ ok (found_locn rl)
unfolding read_mda_header
read_mda_header-at c area rl d h fa fl some_text inside at =
    let e : ltb mda_header_size area.size ≡ true = ground arith in
    let zero = length-zeros 512 in
    rw (e, read_into-full d area.offset (zeros 512) (rw zero inside), zero, at)
      (ap (λ x. check_header x area (mda_header x area rl)) (IsLittleEndian-little_endian c h)
        ∙ check_header-mda_header c area rl fa fl)

-- The store behind a header that was written.
abbrev pub with_header : Crates → PvArea → RawLocn → Disk → Disk
with_header c area rl d = record d { store = write area.offset (mda_header c area rl) d.store }

pub write_mda_header-inside :
    (c : Crates) (area : PvArea) (rl : RawLocn) (d : Disk)
    → area.offset + mda_header_size ≤ d.size
    → write_mda_header c area d rl ≡ ok (with_header c area rl d)
unfolding write_mda_header
write_mda_header-inside c area rl d inside =
    write_all-inside d area.offset (mda_header c area rl) (rw (length-mda_header c area rl) inside)

pub read-with_header :
    (c : Crates) (area : PvArea) (rl : RawLocn) (d : Disk)
    → read area.offset 512 (with_header c area rl d).store ≡ mda_header c area rl
read-with_header c area rl d =
    ap (λ n. read area.offset n (with_header c area rl d).store) (sym (length-mda_header c area rl))
    ∙ read-write area.offset (mda_header c area rl) d.store

-- If byteorder is little-endian, the area and the location fit their fields, and the area is longer than its header, which lies on the device, then
-- the header that is written to the area is read again: its location, or none if the location has offset 0.
pub mda_header_round_trip :
    (c : Crates) (area : PvArea) (rl : RawLocn) (d : Disk)
    → IsLittleEndian c
    → FitsArea area
    → FitsLocn rl
    → mda_header_size < area.size
    → area.offset + mda_header_size ≤ d.size
    → (d2 : Disk) × (write_mda_header c area d rl ≡ ok d2)
      × (read_mda_header c area d2 ≡ ok (found_locn rl))
mda_header_round_trip c area rl d h fa fl some_text inside = (
  with_header c area rl d,
  write_mda_header-inside c area rl d inside,
  read_mda_header-at c area rl (with_header c area rl d) h fa fl some_text inside
      (read-with_header c area rl d),
)
