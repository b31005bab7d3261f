-- ===== src/Vg/Written.antt =====
-- `to_textmap` of src/vg.rs for a consistent group: it does not panic.
use melvin.Prelude.{
  ℕ, ◌+◌, ◌≡◌, refl, true, List, [], ◌∷◌, none, some, Bytes, bytes, arith, Bool-cases, inl, inr,
  if◌then◌else◌, ok, as_i64,
}
use melvin.BTree.{Ord, BTreeMap, bytes_ord, get, contains_key, values, collect}
use melvin.BTree
use melvin.BTree.Laws.{get-insert, contains_key-get, IsSorted, get-IsAfter}
use melvin.Types.{Pv, Lv, Vg, Segment, striped, thinpool, thin}
use melvin.Parser.TextMap.{Entries, Entry, TextMap, empty, insert}
use melvin.Lv
use melvin.Lv.{segment_name, store_segments, lv_header}
use melvin.Lv.Segments
use melvin.Lv.Segments.{pv_dependencies, devices_of, store_stripes, pv_name, striped_map}
use melvin.Pv
use melvin.Vg.Text
use melvin.Vg.Text.{numbered, dev_to_idx, store_pvs, store_lvs, with_lvs, vg_header}
use melvin.Vg.Physical.{any_device, any_segment, in_use}
use melvin.Vg.Total.{contains_key-found}
use melvin.Vg.Consistent.{IsConsistent}

module _ {D : Type 0} ⦃o : Ord D⦄ where
  contains_key-put :
      (k j : D) (v : ℕ) (m : BTreeMap D ℕ)
      → contains_key k (BTree.insert j v m) ≡ (if o.eq k j then true else contains_key k m)
  contains_key-put k j v m =
      ground
        (arith, contains_key-get k (BTree.insert j v m), contains_key-get k m, get-insert k j v m)

  contains_key-collect :
      (k : D) (l : List (D × ℕ)) (m : BTreeMap D ℕ)
      → contains_key k m ≡ true
      → contains_key k (collect l m) ≡ true
  unfolding collect
  contains_key-collect k [] m h = h
  contains_key-collect k ((j, v) ∷ l) m h =
      contains_key-collect k l (BTree.insert j v m) (ground (arith, contains_key-put k j v m))

  -- The volumes stand under their devices.
  abbrev pub AreKeyed : List (D × Pv D) → Type 0
  AreKeyed [] = Unit
  AreKeyed ((k, pv) ∷ pvs) = (pv.device ≡ k) × AreKeyed pvs

  pub keyed-IsSorted :
      (pvs : BTreeMap D (Pv D))
      → IsSorted pvs
      → ((k : D) (pv : Pv D) → get k pvs ≡ some pv → pv.device ≡ k)
      → AreKeyed pvs
  unfolding get
  keyed-IsSorted [] s h = tt
  keyed-IsSorted ((j, w) ∷ pvs) (after, s) h =
      let self : o.eq j j ≡ true = (o.eq_iff j j).1 refl in
      (
        h j w (rw self refl),
        keyed-IsSorted pvs s (λ k pv found. elim (Bool-cases (o.eq k j)) [
          | inl same_key ↦
              let k_eq : k ≡ j = (o.eq_iff k j).0 same_key in
              let gone : get k pvs ≡ none = rw k_eq (get-IsAfter j pvs after) in cc
          | inr other ↦ h k pv (rw other found)
        ]),
      )

  -- Every device has an index.
  contains_key-numbered :
      (k : D) (n : ℕ) (pvs : List (D × Pv D)) (m : BTreeMap D ℕ)
      → AreKeyed pvs
      → contains_key k pvs ≡ true
      → contains_key k (collect (numbered n (values pvs)) m) ≡ true
  unfolding collect contains_key numbered
  contains_key-numbered k n [] m h there = cc
  contains_key-numbered k n ((j, w) ∷ pvs) m (named, h) there = elim (Bool-cases (o.eq k j)) [
    | inl self ↦
        contains_key-collect k (numbered (n + 1) (values pvs)) (BTree.insert w.device n m)
          (rw (named, contains_key-put k j n m, self) refl)
    | inr other ↦ contains_key-numbered k (n + 1) pvs (BTree.insert w.device n m) h (ground arith)
  ]

  dev_to_idx-covers :
      (vg : Vg D)
      → IsConsistent vg
      → (k : D) → contains_key k vg.pvs ≡ true
      → contains_key k (dev_to_idx vg) ≡ true
  unfolding dev_to_idx
  dev_to_idx-covers vg h k =
      contains_key-numbered k 0 vg.pvs [] (keyed-IsSorted vg.pvs h.pvs_sorted h.keyed)

  module _ (idxs : BTreeMap D ℕ) where
    store_pvs-total :
        (to_u64 : D → ℕ) (pvs : List (D × Pv D)) (tm : TextMap)
        → ((k : D) → contains_key k pvs ≡ true → contains_key k idxs ≡ true)
        → (tm2 : TextMap) × (store_pvs to_u64 idxs pvs tm ≡ ok tm2)
    unfolding store_pvs contains_key
    store_pvs-total to_u64 [] tm h = (tm, refl)
    store_pvs-total to_u64 ((k, v) ∷ pvs) tm h =
        let self : o.eq k k ≡ true = (o.eq_iff k k).1 refl in
        let (idx, at) = contains_key-found k idxs (h k (rw self refl)) in
        let (tm2, e) =
          store_pvs-total to_u64 pvs
            (insert (pv_name idx) (Entry.text_map (Pv.to_textmap to_u64 v)) tm)
            (λ j there. h j (ground arith)) in
        (tm2, rw at e)

    store_stripes-total :
        (stripes : List (D × ℕ))
        → ((e : D) → any_device e (devices_of stripes) ≡ true → contains_key e idxs ≡ true)
        → (l : Entries) × (store_stripes stripes idxs ≡ ok l)
    unfolding store_stripes
    store_stripes-total [] h = (Entries.nil, refl)
    store_stripes-total ((dev, ext) ∷ stripes) h =
        let self : o.eq dev dev ≡ true = (o.eq_iff dev dev).1 refl in
        let (idx, at) = contains_key-found dev idxs (h dev (rw self refl)) in
        let (l, e) = store_stripes-total stripes (λ j there. h j (ground arith)) in
        (
          Entries.cons (Entry.string (pv_name idx)) (Entries.cons (Entry.number (as_i64 ext)) l),
          rw (at, e) refl,
        )

    segment-total :
        (s : Segment D)
        → ((e : D) → any_device e (pv_dependencies s) ≡ true → contains_key e idxs ≡ true)
        → (t : TextMap) × (Segments.to_textmap s idxs ≡ ok t)
    unfolding Segments.to_textmap Segments.striped_to_textmap pv_dependencies
    segment-total (striped s) h =
        let (l, e) = store_stripes-total s.stripes h in (striped_map s l, rw e refl)
    segment-total (thinpool s) h = (Segments.thinpool_to_textmap s, refl)
    segment-total (thin s) h = (Segments.thin_to_textmap s, refl)

    store_segments-total :
        (segs : List (Segment D)) (i : ℕ) (map : TextMap)
        → ((e : D) → any_segment e segs ≡ true → contains_key e idxs ≡ true)
        → (t : TextMap) × (store_segments segs i idxs map ≡ ok t)
    unfolding store_segments
    store_segments-total [] i map h = (map, refl)
    store_segments-total (s ∷ ss) i map h =
        let (t, e) = segment-total s (λ d used. h d (rw used refl)) in
        let (t2, e2) =
          store_segments-total ss (i + 1) (insert (segment_name (i + 1)) (Entry.text_map t) map)
            (λ d used. h d (ground arith)) in
        (t2, rw e e2)

    store_lvs-total :
        (lvs : List (Bytes × Lv D)) (tm : TextMap)
        → ((e : D) → in_use e (values lvs) ≡ true → contains_key e idxs ≡ true)
        → (tm2 : TextMap) × (store_lvs idxs lvs tm ≡ ok tm2)
    unfolding store_lvs Lv.to_textmap
    store_lvs-total [] tm h = (tm, refl)
    store_lvs-total ((k, lv) ∷ lvs) tm h =
        let (t, e) =
          store_segments-total lv.segments 0 (lv_header lv) (λ d used. h d (rw used refl)) in
        let (tm2, e2) =
          store_lvs-total lvs (insert k (Entry.text_map t) tm) (λ d used. h d (ground arith)) in
        (tm2, rw e e2)

    with_lvs-total :
        (lvs : List (Bytes × Lv D)) (map : TextMap)
        → ((e : D) → in_use e (values lvs) ≡ true → contains_key e idxs ≡ true)
        → (tm : TextMap) × (with_lvs idxs lvs map ≡ ok tm)
    unfolding with_lvs
    with_lvs-total [] map h = (map, refl)
    with_lvs-total (lv ∷ lvs) map h =
        let (tm, e) = store_lvs-total (lv ∷ lvs) empty h in
        (insert (bytes "logical_volumes") (Entry.text_map tm) map, rw e refl)

  -- A consistent group is written to a text map with no panic.
  pub to_textmap-total :
      (to_u64 : D → ℕ) (vg : Vg D)
      → IsConsistent vg
      → (map : TextMap) × (Text.to_textmap to_u64 vg ≡ ok map)
  unfolding Text.to_textmap
  to_textmap-total to_u64 vg h =
      let covers = dev_to_idx-covers vg h in
      let (tm, e) = store_pvs-total (dev_to_idx vg) to_u64 vg.pvs empty covers in
      let (map, e2) =
        with_lvs-total (dev_to_idx vg) vg.lvs
          (insert (bytes "physical_volumes") (Entry.text_map tm) (vg_header vg))
          (λ d used. covers d (h.standing d used)) in
      (map, rw e e2)
