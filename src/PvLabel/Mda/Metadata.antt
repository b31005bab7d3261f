-- ===== src/PvLabel/Mda/Metadata.antt =====
-- `write_metadata` over all areas of a device, and `read_metadata` of what it wrote (src/pvlabel.rs).
use melvin.Prelude.{
  ℕ, ◌+◌, ◌≤◌, ◌≡◌, ◌⊎◌, refl, sym, ◌∙◌, ◌∷◌, [], List, Bytes, length, ok, arith, inl, inr,
}
use melvin.Crates.{Crates}
use melvin.Disk.{read, zeros, Disk, read_into}
use melvin.Disk.Laws.{read-write_outside, read_into-zeros}
use melvin.PvLabel.Areas.{PvArea}
use melvin.PvLabel.Mda.{mda_header, read_mda_header}
use melvin.PvLabel.Mda.Text.{write_areas}
use melvin.PvLabel.Mda.RoundTrip.{length-mda_header}
use melvin.PvLabel.Mda.Stored.{
  IsPlaced, IsReady, IsStored, with_text, new_locn, rewritten, write_area-ready,
}

-- Areas that share no byte.
abbrev pub AreApart : PvArea → PvArea → Type 0
AreApart a b = (a.offset + a.size ≤ b.offset) ⊎ (b.offset + b.size ≤ a.offset)

abbrev pub IsApart : PvArea → List PvArea → Type 0
IsApart a [] = Unit
IsApart a (b ∷ bs) = AreApart a b × IsApart a bs

-- No two areas share a byte.
abbrev pub ArePairwiseApart : List PvArea → Type 0
ArePairwiseApart [] = Unit
ArePairwiseApart (a ∷ areas) = IsApart a areas × ArePairwiseApart areas

AreApart-sym : (a b : PvArea) → AreApart a b → AreApart b a
AreApart-sym a b (inl h) = inr h
AreApart-sym a b (inr h) = inl h

-- Two states of a device that agree in an area.
abbrev pub Agree : PvArea → Disk → Disk → Type 0
Agree a d d2 =
    (d2.size ≡ d.size)
    × ((p n : ℕ) → a.offset ≤ p → p + n ≤ a.offset + a.size → read p n d2.store ≡ read p n d.store)

pub Agree-trans : (a : PvArea) (d1 d2 d3 : Disk) → Agree a d1 d2 → Agree a d2 d3 → Agree a d1 d3
Agree-trans a d1 d2 d3 (s, h) (t, k) = (t ∙ s, λ p n lo hi. k p n lo hi ∙ h p n lo hi)

outside_of :
    (a b : PvArea) (p n q m : ℕ)
    → AreApart a b
    → a.offset ≤ p
    → p + n ≤ a.offset + a.size
    → b.offset ≤ q
    → q + m ≤ b.offset + b.size
    → (p + n ≤ q) ⊎ (q + m ≤ p)
outside_of a b p n q m (inl h) lo hi lo2 hi2 = inl (omega arith)
outside_of a b p n q m (inr h) lo hi lo2 hi2 = inr (omega arith)

module _ (c : Crates) where
  pub Agree-rewritten :
      (start : ℕ) (text : Bytes) (a b : PvArea) (d : Disk)
      → IsReady c start text b d
      → AreApart a b
      → Agree a d (rewritten c b start text d)
  Agree-rewritten start text a b d h apart =
      let roomy = h.placed.roomy in
      let fits = h.fits in
      let hdr = mda_header c b (new_locn c start text) in
      let len = length-mda_header c b (new_locn c start text) in
      (
        refl,
        λ p n lo hi.
            read-write_outside p n b.offset hdr (with_text b start text d).store (
              outside_of a b p n b.offset (length hdr) apart lo hi (omega arith)
                (omega (arith, len)))
            ∙ read-write_outside p n (b.offset + start) text d.store (
                outside_of a b p n (b.offset + start) (length text) apart lo hi (omega arith)
                  (omega arith)),
      )

  IsPlaced-Agree : (a : PvArea) (d d2 : Disk) → Agree a d d2 → IsPlaced a d → IsPlaced a d2
  IsPlaced-Agree a d d2 (same_size, _) h = record {
    fits = h.fits;
    sectors = h.sectors;
    roomy = h.roomy;
    inside = rw same_size h.inside;
    no_wrap = h.no_wrap;
  }

  read_mda_header-Agree :
      (a : PvArea) (d d2 : Disk)
      → Agree a d d2
      → IsPlaced a d
      → read_mda_header c a d2 ≡ read_mda_header c a d
  unfolding read_mda_header
  read_mda_header-Agree a d d2 (same_size, agree) h =
      let roomy = h.roomy in
      let inside = h.inside in
      let same_header : read_into d2 a.offset (zeros 512) ≡ read_into d a.offset (zeros 512) =
        read_into-zeros d2 a.offset 512 (rw same_size (omega arith))
        ∙ agree a.offset 512 (omega arith) (omega arith)
        ∙ sym (read_into-zeros d a.offset 512 (omega arith)) in
      rw same_header refl

  pub IsReady-Agree :
      (start : ℕ) (text : Bytes) (a : PvArea) (d d2 : Disk)
      → Agree a d d2
      → IsReady c start text a d
      → IsReady c start text a d2
  IsReady-Agree start text a d d2 g h = record {
    placed = IsPlaced-Agree a d d2 g h.placed;
    locn = h.locn;
    readable = read_mda_header-Agree a d d2 g h.placed ∙ h.readable;
    active = h.active;
    starts = h.starts;
    fits = h.fits;
  }

  -- Every area may be written to, behind its header.
  abbrev pub AreReady : Bytes → List PvArea → Disk → Type 0
  AreReady text [] d = Unit
  AreReady text (a ∷ areas) d = IsReady c 512 text a d × AreReady text areas d

  pub AreReady-rewritten :
      (text : Bytes) (b : PvArea) (areas : List PvArea) (d : Disk)
      → IsReady c 512 text b d
      → IsApart b areas
      → AreReady text areas d
      → AreReady text areas (rewritten c b 512 text d)
  AreReady-rewritten text b [] d h apart ready = tt
  AreReady-rewritten text b (a ∷ areas) d h (apart, aparts) (ready, readies) = (
    IsReady-Agree 512 text a d (rewritten c b 512 text d)
        (Agree-rewritten 512 text a b d h (AreApart-sym b a apart)) ready,
    AreReady-rewritten text b areas d h aparts readies,
  )

  -- All areas are written, and what is apart from them stays.
  pub write_areas-ready :
      (text : Bytes) (areas : List PvArea) (d : Disk)
      → AreReady text areas d
      → ArePairwiseApart areas
      → (d2 : Disk) × (write_areas c areas text d ≡ ok d2)
        × ((a : PvArea) → IsApart a areas → Agree a d d2)
  unfolding write_areas
  write_areas-ready text [] d ready apart = (d, refl, λ a _. (refl, λ p n _ _. refl))
  write_areas-ready text (b ∷ areas) d (ready, readies) (apart, aparts) =
      let d1 = rewritten c b 512 text d in
      let (d2, e, agree) =
        write_areas-ready text areas d1 (AreReady-rewritten text b areas d ready apart readies)
          aparts in
      (
        d2,
        rw (write_area-ready c 512 text b d ready refl (omega arith)) e,
        λ a (from_b, from_as).
            Agree-trans a d d1 d2 (Agree-rewritten 512 text a b d ready from_b) (agree a from_as),
      )

  pub IsStored-Agree :
      (text : Bytes) (a : PvArea) (d d2 : Disk)
      → Agree a d d2
      → IsStored c 512 text a d
      → IsStored c 512 text a d2
  IsStored-Agree text a d d2 g h =
      let roomy = h.placed.roomy in
      record {
        placed = IsPlaced-Agree a d d2 g h.placed;
        fits = h.fits;
        header = g.1 a.offset 512 (omega arith) (omega arith) ∙ h.header;
      }
