-- ===== src/Vg/RoundTrip.antt =====
-- A group of src/vg.rs, written by `to_textmap` and read again by `from_textmap`.
pub mod Sections
pub mod Devices
pub mod Volumes
pub mod Fresh
use melvin.Prelude.{
  ℕ, pos, ◌+◌, ◌<◌, ◌≡◌, refl, ap, ◌∙◌, true, false, List, [], ◌∷◌, Option, some, none, Bytes,
  bytes, before, same, same_refl, two64, as_i64, as_u64, as_u64-as_i64, ok,
}
use melvin.BTree.{Ord, BTreeMap, bytes_ord, values, collect}
use melvin.Types.{Pv, Lv, Vg}
use melvin.Parser.TextMap.{
  Entry, TextMap, empty, insert, get, entries_of, status_from_textmap, textmap_from_textmap,
}
use melvin.Parser.TextMap.Laws.{get-insert, strings_of-entries_of}
use melvin.Pv.RoundTrip.{FitsU64}
use melvin.Vg.Text.{
  from_textmap, to_textmap, vg_header, with_lvs, load_lv_section, set_devices, by_device, store_pvs,
  load_pvs, dev_to_idx,
}
use melvin.Vg.Consistent.{IsConsistent}
use melvin.Vg.Written.{AreKeyed, keyed-IsSorted}
use melvin.Pv
use melvin.BTree.Laws.{IsSorted}
use melvin.Lv.Reload.{IsLinked}
use melvin.Vg.Physical.{in_use}
use Sections.{All, named, sections, map_values, load_pvs-named}
use Devices.{AreNumbered-dev_to_idx, store_pvs-named, by_device-collect, IsLinked-named}
use Volumes.{VolumesFit, reload_lvs, load-store_lvs}

module _ {D : Type 0} (to_u64 : D → ℕ) where
  abbrev PhysicalFit : List (D × Pv D) → Type 0
  PhysicalFit [] = Unit
  PhysicalFit ((k, pv) ∷ pvs) = FitsU64 to_u64 pv × PhysicalFit pvs

  -- The numbers of a group fit `u64`, and each logical volume stands under its name.
  pub record VgFits (vg : Vg D) : Type 0 where
    pub seqno : vg.seqno < two64
    pub extent_size : vg.extent_size < two64
    pub metadata_copies : vg.metadata_copies < two64
    pub pvs : PhysicalFit vg.pvs
    pub lvs : VolumesFit vg.lvs

  All-named : (n : ℕ) (pvs : List (D × Pv D)) → PhysicalFit pvs → All (FitsU64 to_u64) (named n pvs)
  All-named n [] h = tt
  All-named n ((k, v) ∷ pvs) (f, h) = (f, All-named (n + 1) pvs h)

module _ {D : Type 0} where
  -- What is read of the fields: the limits are written as 0.
  abbrev pub reload_vg : List (Bytes × D) → Vg D → Vg D
  reload_vg devices vg = record vg {
    max_lv = 0;
    max_pv = 0;
    lvs = set_devices devices (reload_lvs vg.lvs);
  }

module _ {D : Type 0} ⦃o : Ord D⦄ (from_u64 : ℕ → D) (to_u64 : D → ℕ) where
  -- The section of the logical volumes, left out if there is none.
  load-with_lvs :
      (idxs : BTreeMap D ℕ) (names : BTreeMap Bytes (Pv D)) (lvs : BTreeMap Bytes (Lv D))
      (base : TextMap)
      → VolumesFit lvs
      → IsSorted lvs
      → ((e : D) → in_use e (values lvs) ≡ true → IsLinked idxs names e)
      → get (bytes "logical_volumes") base ≡ none
      → (map : TextMap) × (with_lvs idxs lvs base ≡ ok map)
        × ((k : Bytes) → same k (bytes "logical_volumes") ≡ false → get k map ≡ get k base)
        × (load_lv_section names (textmap_from_textmap map (bytes "logical_volumes"))
            ≡ ok (reload_lvs lvs))
  unfolding with_lvs load_lv_section
  load-with_lvs idxs names [] base f s h no_lvs = (base, refl, λ k other. refl, rw no_lvs)
  load-with_lvs idxs names (lv ∷ lvs) base f s h no_lvs =
      let (tm, e, g) = load-store_lvs idxs names (lv ∷ lvs) f s h in
      (
        insert (bytes "logical_volumes") (Entry.text_map tm) base,
        rw e refl,
        λ k other. rw (get-insert, other),
        rw (get-insert, same_refl (bytes "logical_volumes"), g),
      )

  -- The map is read as the group, if its sections are.
  loads_sections :
      (devices : List (Bytes × D)) (vg : Vg D) (map tm : TextMap)
      {str_to_pv : BTreeMap Bytes (Pv D)}
      → VgFits to_u64 vg
      → ((k : Bytes)
          → same k (bytes "logical_volumes") ≡ false
          → get k map
            ≡ get k (insert (bytes "physical_volumes") (Entry.text_map tm) (vg_header vg)))
      → load_pvs from_u64 tm [] ≡ ok str_to_pv
      → collect (by_device (values str_to_pv)) [] ≡ vg.pvs
      → load_lv_section str_to_pv (textmap_from_textmap map (bytes "logical_volumes"))
        ≡ ok (reload_lvs vg.lvs)
      → from_textmap from_u64 (ok devices) vg.name map ≡ ok (reload_vg devices vg)
  unfolding from_textmap vg_header insert get before same status_from_textmap as_u64
  loads_sections devices vg map tm fits same_get e1 e2 e3 = rw (
    same_get (bytes "id") refl,
    same_get (bytes "seqno") refl,
    same_get (bytes "format") refl,
    same_get (bytes "extent_size") refl,
    same_get (bytes "max_lv") refl,
    same_get (bytes "max_pv") refl,
    same_get (bytes "metadata_copies") refl,
    same_get (bytes "status") refl,
    same_get (bytes "flags") refl,
    same_get (bytes "physical_volumes") refl,
    e1,
    e3,
    e2,
    as_u64-as_i64 vg.seqno fits.seqno,
    as_u64-as_i64 vg.extent_size fits.extent_size,
    as_u64-as_i64 vg.metadata_copies fits.metadata_copies,
    strings_of-entries_of vg.status,
    strings_of-entries_of vg.flags,
  )

  -- If `from_u64` undoes `to_u64`, a consistent group whose numbers fit `u64`, with each logical
  -- volume under its name, is written with no panic and read again: every field is as it was but
  -- `max_lv` and `max_pv`, which are 0, the segments are as `reload` says, and a logical volume has
  -- the device that is set up under its name, or none.
  pub vg_round_trip :
      ((d : D) → from_u64 (to_u64 d) ≡ d)
      → (devices : List (Bytes × D)) (vg : Vg D) → IsConsistent vg
      → VgFits to_u64 vg
      → (map : TextMap) × (to_textmap to_u64 vg ≡ ok map)
        × (from_textmap from_u64 (ok devices) vg.name map ≡ ok (reload_vg devices vg))
  unfolding to_textmap vg_header insert get before same
  vg_round_trip from-to devices vg h fits =
      let keyed = keyed-IsSorted vg.pvs h.pvs_sorted h.keyed in
      let numbers = AreNumbered-dev_to_idx vg keyed h.pvs_sorted in
      let fit = All-named to_u64 0 vg.pvs fits.pvs in
      let tm = sections (collect (map_values (Pv.to_textmap to_u64) (named 0 vg.pvs)) []) in
      let base = insert (bytes "physical_volumes") (Entry.text_map tm) (vg_header vg) in
      let (map, e, others, g) =
        load-with_lvs (dev_to_idx vg) (collect (named 0 vg.pvs) []) vg.lvs base fits.lvs
          h.lvs_sorted
          (λ dev used.
            IsLinked-named dev (dev_to_idx vg) 0 vg.pvs [] keyed numbers (h.standing dev used))
          refl in
      (
        map,
        rw (store_pvs-named to_u64 (dev_to_idx vg) 0 vg.pvs [] numbers) e,
        loads_sections devices vg map tm fits others
            (load_pvs-named from_u64 to_u64 from-to (named 0 vg.pvs) fit)
            (by_device-collect vg.pvs keyed h.pvs_sorted) g,
      )
