-- ===== src/PvLabel/Mda/Again.antt =====
-- A metadata area of src/pvlabel.rs that was written to can be written to again.
use melvin.Prelude.{
  ◌+◌, ◌%◌, ◌≤◌, ◌<◌, ◌≡◌, refl, ◌∷◌, [], List, some, Bytes, length, ok, arith, inl, inr, two64,
}
use native.Mathlib.Nat.{mod-eq_of_lt}
use melvin.Crates.{Crates, IsLittleEndian}
use melvin.Util.{align_to}
use melvin.Util.Align.{align_to-bounds}
use melvin.Disk.{Disk}
use melvin.PvLabel.Areas.{PvArea}
use melvin.PvLabel.Mda.Text.{start_off, write_areas}
use melvin.PvLabel.Mda.Stored.{
  IsReady, new_locn, rewritten, write_area-ready, rewritten-IsStored, read_mda_header-stored,
}
use melvin.PvLabel.Mda.Metadata.{
  AreReady, ArePairwiseApart, IsReady-Agree, AreReady-rewritten, write_areas-ready,
}
use melvin.PvLabel.Mda.Devices.{start_off-cases}

module _ (text text2 : Bytes) where
  -- A text that leaves a sector of the area free, and one that fits behind the header.
  abbrev pub HasRoom : PvArea → Type 0
  HasRoom area = (length text + 1023 < area.size) × (512 + length text2 ≤ area.size)

  abbrev pub HaveRoom : List PvArea → Type 0
  HaveRoom [] = Unit
  HaveRoom (a ∷ areas) = HasRoom a × HaveRoom areas

module _ (c : Crates) (le : IsLittleEndian c) (text text2 : Bytes) where
  next_start :
      (area : PvArea)
      → area.size % 512 ≡ 0
      → area.size < two64
      → length text + 1023 < area.size
      → start_off area (new_locn c 512 text) ≡ 512
  next_start area sectors small room =
      let (low, high, _) = align_to-bounds (512 + length text) 9 54 refl (omega arith) in
      let inside : align_to (512 + length text) 512 % area.size ≡ align_to (512 + length text) 512 =
        mod-eq_of_lt (omega arith) in
      elim (start_off-cases area (new_locn c 512 text) sectors (omega arith) (omega arith)) [
        | inl (front, _) ↦ absurd (omega (arith, inside, front))
        | inr (_, behind) ↦ behind
      ]

  IsReady-again :
      (area : PvArea) (d : Disk)
      → HasRoom text text2 area
      → IsReady c 512 text area d
      → IsReady c 512 text2 area (rewritten c area 512 text d)
  IsReady-again area d (room, fits) h =
      let no_wrap = h.placed.no_wrap in
      let stored = rewritten-IsStored c 512 text area d h in
      record {
        placed = stored.placed;
        locn = some (new_locn c 512 text);
        readable =
            read_mda_header-stored c 512 text area (rewritten c area 512 text d) le stored
              (omega arith);
        active = refl;
        starts = next_start area h.placed.sectors (omega arith) room;
        fits = fits;
      }

  -- After `text` was written to the areas, `text2` may be.
  pub AreReady-again :
      (areas : List PvArea) (d d2 : Disk)
      → HaveRoom text text2 areas
      → AreReady c text areas d
      → ArePairwiseApart areas
      → write_areas c areas text d ≡ ok d2
      → AreReady c text2 areas d2
  unfolding write_areas
  AreReady-again [] d d2 rooms ready apart done = tt
  AreReady-again (a ∷ areas) d d2 (room, rooms) (ready, readies) (apart, aparts) done =
      let d1 = rewritten c a 512 text d in
      let later = AreReady-rewritten c text a areas d ready apart readies in
      let written : write_areas c areas text d1 ≡ ok d2 =
        rw (write_area-ready c 512 text a d ready refl (omega arith)) at done in
      let (d3, e, agree) = write_areas-ready c text areas d1 later aparts in
      let same_disk : d3 ≡ d2 = cc in
      (
        IsReady-Agree c 512 text2 a d1 d2 (rw same_disk at (agree a apart))
            (IsReady-again a d room ready),
        AreReady-again areas d1 d2 rooms later aparts written,
      )
