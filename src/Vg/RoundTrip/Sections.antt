-- ===== src/Vg/RoundTrip/Sections.antt =====
-- The sections "physical_volumes" and "logical_volumes" that src/vg.rs writes and reads.
use melvin.Prelude.{ℕ, ◌+◌, ◌≡◌, refl, sym, ap, ◌∙◌, List, [], ◌∷◌, Bytes, arith, ok}
use melvin.BTree
use melvin.BTree.{Ord, BTreeMap, bytes_ord, get, values, collect}
use melvin.BTree.Collect.{collect-IsSorted, collected-IsSorted}
use melvin.Types.{Pv}
use melvin.Parser.TextMap
use melvin.Parser.TextMap.{Entry, TextMap, empty, bind}
use melvin.Lv.Segments.{pv_name}
use melvin.Pv
use melvin.Pv.RoundTrip.{FitsU64, pv_round_trip}
use melvin.Vg.Text.{load_pvs}

-- The text map of sections.
abbrev pub sections : BTreeMap Bytes TextMap → TextMap
sections [] = empty
sections ((k, t) ∷ m) = bind k (Entry.text_map t) (sections m)

pub insert-sections :
    (k : Bytes) (t : TextMap) (m : BTreeMap Bytes TextMap)
    → TextMap.insert k (Entry.text_map t) (sections m) ≡ sections (BTree.insert k t m)
unfolding TextMap.insert BTree.insert
insert-sections k t [] = refl
insert-sections k t ((j, u) ∷ m) = ground (arith, insert-sections k t m)

module _ {V W : Type 0} (f : V → W) where
  abbrev pub map_values : BTreeMap Bytes V → BTreeMap Bytes W
  map_values [] = []
  map_values ((k, v) ∷ m) = (k, f v) ∷ map_values m

  map_values-insert :
      (k : Bytes) (v : V) (m : BTreeMap Bytes V)
      → map_values (BTree.insert k v m) ≡ BTree.insert k (f v) (map_values m)
  unfolding BTree.insert
  map_values-insert k v [] = refl
  map_values-insert k v ((j, w) ∷ m) = ground (arith, map_values-insert k v m)

  map_values-collect :
      (l m : BTreeMap Bytes V) → map_values (collect l m) ≡ collect (map_values l) (map_values m)
  unfolding collect
  map_values-collect [] m = refl
  map_values-collect ((k, v) ∷ l) m =
      map_values-collect l (BTree.insert k v m)
      ∙ ap (collect (map_values l)) (map_values-insert k v m)

module _ {D : Type 0} where
  -- The volumes under their names, "pv" and a number from `n` on.
  abbrev pub named : ℕ → List (D × Pv D) → List (Bytes × Pv D)
  named n [] = []
  named n ((k, v) ∷ pvs) = (pv_name n, v) ∷ named (n + 1) pvs

  -- A property of every volume.
  abbrev pub All : (Pv D → Type 0) → List (Bytes × Pv D) → Type 0
  All P [] = Unit
  All P ((k, v) ∷ m) = P v × All P m

  All-insert :
      (P : Pv D → Type 0) (k : Bytes) (v : Pv D) (m : BTreeMap Bytes (Pv D))
      → P v
      → All P m
      → All P (BTree.insert k v m)
  unfolding BTree.insert
  All-insert P k v [] p h = (p, tt)
  All-insert P k v ((j, w) ∷ m) p (q, h) = ground (arith, All-insert P k v m p h)

  pub All-collect :
      (P : Pv D → Type 0) (l m : BTreeMap Bytes (Pv D)) → All P l → All P m → All P (collect l m)
  unfolding collect
  All-collect P [] m h g = g
  All-collect P ((k, v) ∷ l) m (p, h) g =
      All-collect P l (BTree.insert k v m) h (All-insert P k v m p g)

  module _ (from_u64 : ℕ → D) (to_u64 : D → ℕ) (from-to : (d : D) → from_u64 (to_u64 d) ≡ d) where
    load_pvs-sections :
        (m acc : BTreeMap Bytes (Pv D))
        → All (FitsU64 to_u64) m
        → load_pvs from_u64 (sections (map_values (Pv.to_textmap to_u64) m)) acc
          ≡ ok (collect m acc)
    unfolding load_pvs collect
    load_pvs-sections [] acc h = refl
    load_pvs-sections ((k, v) ∷ m) acc (fits, h) =
        rw (pv_round_trip from_u64 to_u64 from-to v fits)
          (load_pvs-sections m (BTree.insert k v acc) h)

    -- What was stored for the named volumes is read as the map of the named volumes.
    pub load_pvs-named :
        (l : List (Bytes × Pv D))
        → All (FitsU64 to_u64) l
        → load_pvs from_u64 (sections (collect (map_values (Pv.to_textmap to_u64) l) [])) []
          ≡ ok (collect l [])
    load_pvs-named l h =
        ap (λ m. load_pvs from_u64 (sections m) [])
          (sym (map_values-collect (Pv.to_textmap to_u64) l []))
        ∙ load_pvs-sections (collect l []) [] (All-collect (FitsU64 to_u64) l [] h tt)
        ∙ ap ok (collect-IsSorted (collect l []) (collected-IsSorted l [] tt))
