-- ===== src/Vg/RoundTrip/Fresh.antt =====
-- A group that `create` of src/vg.rs just made, read again from its text map.
use melvin.Prelude.{ℕ, ◌<◌, ◌≡◌, refl, ◌∙◌, [], ◌∷◌, List, Bytes, two64, ok, arith}
use melvin.BTree.{Ord, bytes_ord, get, insert}
use melvin.Util.{align_to}
use melvin.Parser.TextMap.{TextMap}
use melvin.PvLabel.Header.{fresh_header}
use melvin.Vg.Commit.{next_seqno}
use melvin.Vg.Physical.{volume_of}
use melvin.Vg.Consistent.{IsConsistent, AreConsistent-empty, AreConsistent-insert_pv}
use melvin.Vg.Create.{group_of_one, data_area}
use melvin.Vg.Text.{to_textmap, from_textmap, set_devices}
use melvin.Vg.RoundTrip.{VgFits, vg_round_trip}

set_devices-empty : {D : Type 0} (devices : List (Bytes × D)) → set_devices devices [] ≡ []
unfolding set_devices get
set_devices-empty [] = refl
set_devices-empty ((lvname, dev) ∷ devices) = set_devices-empty devices

module _ {D : Type 0} ⦃o : Ord D⦄ (to_u64 : D → ℕ) (name id uuid path : Bytes) (size : ℕ)
    (dev : D) where
  one-IsConsistent : IsConsistent (next_seqno (group_of_one name id uuid size path dev))
  unfolding insert volume_of
  one-IsConsistent =
      AreConsistent-insert_pv [] [] AreConsistent-empty dev
        (volume_of (fresh_header uuid size path) dev data_area 8192) refl

  one-VgFits :
      size < two64
      → to_u64 dev < two64
      → VgFits to_u64 (next_seqno (group_of_one name id uuid size path dev))
  unfolding volume_of align_to
  one-VgFits fits small = record {
    seqno = omega arith;
    extent_size = omega arith;
    metadata_copies = omega arith;
    pvs = (
      record {
        device = small;
        dev_size = omega arith;
        pe_start = omega arith;
        pe_count = omega arith;
      },
      tt,
    );
    lvs = tt;
  }

  -- It is read as it was made.
  pub from_textmap_fresh :
      (from_u64 : ℕ → D) (devices : List (Bytes × D)) (map : TextMap)
      → ((d : D) → from_u64 (to_u64 d) ≡ d)
      → size < two64
      → to_u64 dev < two64
      → to_textmap to_u64 (next_seqno (group_of_one name id uuid size path dev)) ≡ ok map
      → from_textmap from_u64 (ok devices) name map
        ≡ ok (next_seqno (group_of_one name id uuid size path dev))
  from_textmap_fresh from_u64 devices map from-to fits small mapped =
      let vg = next_seqno (group_of_one name id uuid size path dev) in
      let (map2, e, loaded) =
        vg_round_trip from_u64 to_u64 from-to devices vg one-IsConsistent (one-VgFits fits small) in
      let same_map : map ≡ map2 = cc in rw same_map (loaded ∙ rw (set_devices-empty devices))
