-- ===== src/PvLabel/Mda/Copies.antt =====
-- The text that `write_metadata` of src/pvlabel.rs writes to the metadata areas, read from each of them.
use melvin.Prelude.{◌+◌, ◌≡◌, refl, ◌∙◌, ◌∷◌, [], List, Bytes, length, ok, arith}
use melvin.Crates.{Crates, IsLittleEndian}
use melvin.Disk.{Disk}
use melvin.PvLabel.Areas.{PvArea}
use melvin.PvLabel.Mda.Text.{read_areas, write_areas}
use melvin.PvLabel.Mda.Stored.{
  IsReady, rewritten, write_area-ready, rewritten-IsStored, read-rewritten, read_areas-stored,
}
use melvin.Parser.Reader.{buf_to_textmap}
use melvin.PvLabel.Mda.Metadata.{
  IsApart, ArePairwiseApart, Agree, Agree-trans, Agree-rewritten, AreReady, AreReady-rewritten,
  IsStored-Agree,
}

module _ (c : Crates) where
  -- From each area by itself the text is read.
  abbrev pub AreRead : Bytes → List PvArea → Disk → Type 0
  AreRead text [] d = Unit
  AreRead text (a ∷ areas) d =
      (read_areas c (a ∷ []) d ≡ buf_to_textmap text) × AreRead text areas d

  -- The text of an area stays readable when other areas are written.
  read_areas-kept :
      (text : Bytes) (a : PvArea) (rest : List PvArea) (d d2 : Disk)
      → IsLittleEndian c
      → IsReady c 512 text a d
      → Agree a (rewritten c a 512 text d) d2
      → read_areas c (a ∷ rest) d2 ≡ buf_to_textmap text
  read_areas-kept text a rest d d2 le ready kept =
      let fits = ready.fits in
      read_areas-stored c text a rest d2 le
        (IsStored-Agree c text a (rewritten c a 512 text d) d2 kept
          (rewritten-IsStored c 512 text a d ready))
        (kept.1 (a.offset + 512) (length text) (omega arith) (omega arith)
          ∙ read-rewritten c text a d)

  write_areas-AreRead :
      (text : Bytes) (areas : List PvArea) (d : Disk)
      → IsLittleEndian c
      → AreReady c text areas d
      → ArePairwiseApart areas
      → (d2 : Disk) × (write_areas c areas text d ≡ ok d2)
        × ((a : PvArea) → IsApart a areas → Agree a d d2)
        × AreRead text areas d2
  unfolding write_areas
  write_areas-AreRead text [] d le ready apart = (d, refl, λ a _. (refl, λ p n _ _. refl), tt)
  write_areas-AreRead text (b ∷ areas) d le (ready, readies) (apart, aparts) =
      let d1 = rewritten c b 512 text d in
      let (d2, e, agree, reads) =
        write_areas-AreRead text areas d1 le
          (AreReady-rewritten c text b areas d ready apart readies) aparts in
      (
        d2,
        rw (write_area-ready c 512 text b d ready refl (omega arith)) e,
        λ a (from_b, from_as).
            Agree-trans a d d1 d2 (Agree-rewritten c 512 text a b d ready from_b) (agree a from_as),
        (read_areas-kept text b [] d d2 le ready (agree b apart), reads),
      )

  -- Behind the writes the text is read from the device, and from each area by itself.
  pub write_areas-read_areas :
      (text : Bytes) (a : PvArea) (areas : List PvArea) (d : Disk)
      → IsLittleEndian c
      → AreReady c text (a ∷ areas) d
      → ArePairwiseApart (a ∷ areas)
      → (d2 : Disk) × (write_areas c (a ∷ areas) text d ≡ ok d2)
        × (read_areas c (a ∷ areas) d2 ≡ buf_to_textmap text)
        × AreRead text (a ∷ areas) d2
  unfolding write_areas
  write_areas-read_areas text a areas d le (ready, readies) (apart, aparts) =
      let d1 = rewritten c a 512 text d in
      let (d2, e, agree, reads) =
        write_areas-AreRead text areas d1 le
          (AreReady-rewritten c text a areas d ready apart readies) aparts in
      (
        d2,
        rw (write_area-ready c 512 text a d ready refl (omega arith)) e,
        read_areas-kept text a areas d d2 le ready (agree a apart),
        (read_areas-kept text a [] d d2 le ready (agree a apart), reads),
      )
