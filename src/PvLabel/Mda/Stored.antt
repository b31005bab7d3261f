-- ===== src/PvLabel/Mda/Stored.antt =====
-- The text of `write_metadata` in the metadata areas of a device, and `read_metadata` of it
-- (src/pvlabel.rs).
use melvin.Prelude.{
  ◌==◌, false, ℕ, ◌+◌, ◌-◌, ◌%◌, ◌<◌, ◌≤◌, ◌≡◌, refl, ap, ◌∙◌, ◌∷◌, [], append-nil, List, Option,
  Bytes, take, length, ok, two64, arith, inr,
}
use Prim.Native.Nat.{min}
use melvin.Crates.{Crates, IsLittleEndian}
use melvin.Util.{crc32_calc, crc32_calc-lt}
use melvin.Disk.{write, read, zeros, Disk, read_into}
use melvin.Disk.Laws.{
  read-write_outside, read-write, length-zeros, read_into-full, write_all-inside,
}
use melvin.PvLabel.Areas.{PvArea, RawLocn}
use melvin.PvLabel.Mda.{mda_header, read_mda_header}
use melvin.PvLabel.Mda.Text.{
  add_u64, sub_u64, read_text, read_areas, or_template, start_off, write_text, write_area,
}
use melvin.PvLabel.Mda.RoundTrip.{
  FitsArea, found_locn, with_header, write_mda_header-inside, read_mda_header-at, read-with_header,
  length-mda_header, eq_self,
}
use melvin.Parser.Reader.{buf_to_textmap}

-- The area lies on the device, in whole sectors, and is longer than its header.
pub record IsPlaced (area : PvArea) (d : Disk) : Type 0 where
  pub fits : FitsArea area
  pub sectors : area.size % 512 ≡ 0
  pub roomy : 512 < area.size
  pub inside : area.offset + area.size ≤ d.size
  pub no_wrap : area.offset + area.size < two64

take-all : (b : Bytes) → take (length b) b ≡ b
take-all [] = refl
take-all (x ∷ b) = ap (◌∷◌ x) (take-all b)

abbrev pub with_text : PvArea → ℕ → Bytes → Disk → Disk
with_text area start text d = record d { store = write (area.offset + start) text d.store }

-- A text that fits behind `start` is written there.
write_text-fits :
    (area : PvArea) (start : ℕ) (text : Bytes) (d : Disk)
    → IsPlaced area d
    → start < area.size
    → start + length text ≤ area.size
    → write_text area start text d ≡ ok (with_text area start text d)
unfolding write_text
write_text-fits area start text d h low fits =
    let inside = h.inside in
    let no_wrap = h.no_wrap in
    let all : min (area.size - start) (length text) ≡ length text = omega arith in
    let some_tail : (area.size - start == 0) ≡ false = ground arith in
    let at : add_u64 area.offset start ≡ area.offset + start = omega arith in
    rw
      (
        all,
        some_tail,
        at,
        take-all text,
        write_all-inside d (area.offset + start) text (omega arith),
        eq_self (length text),
      )
      refl

module _ (c : Crates) where
  abbrev pub new_locn : ℕ → Bytes → RawLocn
  new_locn start text = record {
    offset = start;
    size = length text;
    checksum = crc32_calc c text;
    ignored = false;
  }

  -- The device behind `write_area`.
  abbrev pub rewritten : PvArea → ℕ → Bytes → Disk → Disk
  rewritten area start text d =
      with_header c area (new_locn start text) (with_text area start text d)

  -- An area that `write_metadata` may write `text` to, from `start` on.
  pub record IsReady (start : ℕ) (text : Bytes) (area : PvArea) (d : Disk) : Type 0 where
    pub placed : IsPlaced area d
    pub locn : Option RawLocn
    pub readable : read_mda_header c area d ≡ ok locn
    pub active : (or_template locn).ignored ≡ false
    pub starts : start_off area (or_template locn) ≡ start
    pub fits : start + length text ≤ area.size

  pub write_area-ready :
      (start : ℕ) (text : Bytes) (area : PvArea) (d : Disk)
      → IsReady start text area d
      → start % 512 ≡ 0
      → start ≤ 512
      → write_area c area text d ≡ ok (rewritten area start text d)
  unfolding write_area
  write_area-ready start text area d h sector low =
      let sectors = h.placed.sectors in
      let roomy = h.placed.roomy in
      let inside = h.placed.inside in
      let rest : (area.size - start) % 512 ≡ 0 = omega arith in
      rw
        (
          h.readable,
          h.active,
          h.starts,
          sector,
          rest,
          write_text-fits area start text d h.placed (omega arith) h.fits,
        )
        (write_mda_header-inside c area (new_locn start text) (with_text area start text d)
          (omega arith))

  -- A text that stands in an area, behind a header that names it.
  pub record IsStored (start : ℕ) (text : Bytes) (area : PvArea) (d : Disk) : Type 0 where
    pub placed : IsPlaced area d
    pub fits : start + length text ≤ area.size
    pub header : read area.offset 512 d.store ≡ mda_header c area (new_locn start text)

  pub rewritten-IsStored :
      (start : ℕ) (text : Bytes) (area : PvArea) (d : Disk)
      → IsReady start text area d
      → IsStored start text area (rewritten area start text d)
  rewritten-IsStored start text area d h = record {
    placed = record {
      fits = h.placed.fits;
      sectors = h.placed.sectors;
      roomy = h.placed.roomy;
      inside = h.placed.inside;
      no_wrap = h.placed.no_wrap;
    };
    fits = h.fits;
    header = read-with_header c area (new_locn start text) (with_text area start text d);
  }

  -- A text behind the header is not overwritten by it.
  pub read-rewritten :
      (text : Bytes) (area : PvArea) (d : Disk)
      → read (area.offset + 512) (length text) (rewritten area 512 text d).store ≡ text
  read-rewritten text area d =
      read-write_outside (area.offset + 512) (length text) area.offset
        (mda_header c area (new_locn 512 text)) (with_text area 512 text d).store
        (inr (rw (length-mda_header c area (new_locn 512 text)) (omega arith)))
      ∙ read-write (area.offset + 512) text d.store

  pub read_mda_header-stored :
      (start : ℕ) (text : Bytes) (area : PvArea) (d : Disk)
      → IsLittleEndian c
      → IsStored start text area d
      → start ≤ 512
      → read_mda_header c area d ≡ ok (found_locn (new_locn start text))
  read_mda_header-stored start text area d le h low =
      let roomy = h.placed.roomy in
      let inside = h.placed.inside in
      let no_wrap = h.placed.no_wrap in
      let fits = h.fits in
      read_mda_header-at c area (new_locn start text) d le h.placed.fits
        (record { offset = omega arith; size = omega arith; checksum = crc32_calc-lt c text }) roomy
        (omega arith) h.header

  read_text-stored :
      (text : Bytes) (area : PvArea) (d : Disk)
      → IsStored 512 text area d
      → read (area.offset + 512) (length text) d.store ≡ text
      → read_text area (new_locn 512 text) d ≡ text
  unfolding read_text zeros
  read_text-stored text area d h body =
      let roomy = h.placed.roomy in
      let inside = h.placed.inside in
      let no_wrap = h.placed.no_wrap in
      let fits = h.fits in
      let tail : sub_u64 area.size 512 ≡ area.size - 512 = omega arith in
      let all : min (area.size - 512) (length text) ≡ length text = omega arith in
      let at : add_u64 area.offset 512 ≡ area.offset + 512 = omega arith in
      let zero = length-zeros (length text) in
      let none_left : length text - length text ≡ 0 = omega arith in
      let behind : read_into d (area.offset + 512) (zeros (length text)) ≡ text =
        read_into-full d (area.offset + 512) (zeros (length text)) (rw zero (omega arith))
        ∙ rw zero body in
      rw (tail, all, at, eq_self (length text), none_left, behind) (append-nil text)

  -- The first area of a list decides, if a text is stored in it.
  pub read_areas-stored :
      (text : Bytes) (area : PvArea) (areas : List PvArea) (d : Disk)
      → IsLittleEndian c
      → IsStored 512 text area d
      → read (area.offset + 512) (length text) d.store ≡ text
      → read_areas c (area ∷ areas) d ≡ buf_to_textmap text
  unfolding read_areas
  read_areas-stored text area areas d le h body =
      rw
        (
          read_mda_header-stored 512 text area d le h (omega arith),
          read_text-stored text area d h body,
          eq_self (crc32_calc c text),
        )
        refl
