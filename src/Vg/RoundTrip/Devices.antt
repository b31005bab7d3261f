-- ===== src/Vg/RoundTrip/Devices.antt =====
-- The numbers of the physical volumes in src/vg.rs: each volume is written under the name with its
-- number, and what was read by the names is ordered by the devices again.
use melvin.Prelude.{
  ℕ, ◌+◌, ◌<◌, ◌≤◌, ◌≡◌, refl, ap, ◌∙◌, true, false, [], ◌∷◌, none, some, Bytes, same, same_iff,
  same_refl, before, drop, format_u64-injective, Bool-cases, inl, inr, arith, ok,
}
use melvin.BTree
use melvin.BTree.{Ord, BTreeMap, bytes_ord, get, contains_key, values, collect}
use melvin.BTree.Laws.{IsAfter, IsSorted, get-insert, get-IsAfter, contains_key-get}
use melvin.BTree.Collect.{collect-insert, collect-IsSorted}
use melvin.Types.{Pv, Vg}
use melvin.Parser.TextMap.{TextMap}
use melvin.Lv.Segments.{pv_name}
use melvin.Lv.Reload.{IsLinked}
use melvin.Pv
use melvin.Vg.Text.{numbered, dev_to_idx, store_pvs, by_device}
use melvin.Vg.Written.{AreKeyed}
use melvin.Vg.RoundTrip.Sections.{sections, insert-sections, map_values, named}

pv_name_ne : (m n : ℕ) → m < n → same (pv_name m) (pv_name n) ≡ false
pv_name_ne m n h = elim (Bool-cases (same (pv_name m) (pv_name n))) [
  | inl equal ↦
      let names : pv_name m ≡ pv_name n = (same_iff (pv_name m) (pv_name n)).0 equal in
      absurd (omega (arith, format_u64-injective m n (ap (drop 2) names)))
  | inr other ↦ other
]

module _ {D : Type 0} ⦃o : Ord D⦄ where
  numbered-IsAfter :
      (k : D) (n : ℕ) (pvs : BTreeMap D (Pv D))
      → AreKeyed pvs
      → IsAfter k pvs
      → IsAfter k (numbered n (values pvs))
  unfolding numbered
  numbered-IsAfter k n [] h a = tt
  numbered-IsAfter k n ((j, v) ∷ pvs) (named_j, h) (a, behind) =
      (rw named_j a, numbered-IsAfter k (n + 1) pvs h behind)

  numbered-IsSorted :
      (n : ℕ) (pvs : BTreeMap D (Pv D))
      → AreKeyed pvs
      → IsSorted pvs
      → IsSorted (numbered n (values pvs))
  unfolding numbered
  numbered-IsSorted n [] h s = tt
  numbered-IsSorted n ((j, v) ∷ pvs) (named_j, h) (a, s) =
      (rw named_j (numbered-IsAfter j (n + 1) pvs h a), numbered-IsSorted (n + 1) pvs h s)

  -- In a group whose volumes stand under their devices, the map of numbers counts them.
  dev_to_idx-numbered :
      (vg : Vg D) → AreKeyed vg.pvs → IsSorted vg.pvs → dev_to_idx vg ≡ numbered 0 (values vg.pvs)
  unfolding dev_to_idx
  dev_to_idx-numbered vg h s =
      collect-IsSorted (numbered 0 (values vg.pvs)) (numbered-IsSorted 0 vg.pvs h s)

  -- The numbers of the volumes `pvs`, from `n` on, are those of `idxs`.
  abbrev pub AreNumbered : BTreeMap D ℕ → ℕ → BTreeMap D (Pv D) → Type 0
  AreNumbered idxs n [] = Unit
  AreNumbered idxs n ((k, v) ∷ pvs) = (get k idxs ≡ some n) × AreNumbered idxs (n + 1) pvs

  AreNumbered-weaken :
      (j : D) (i : ℕ) (idxs : BTreeMap D ℕ) (n : ℕ) (pvs : BTreeMap D (Pv D))
      → IsAfter j pvs
      → AreNumbered idxs n pvs
      → AreNumbered ((j, i) ∷ idxs) n pvs
  unfolding get
  AreNumbered-weaken j i idxs n [] a h = tt
  AreNumbered-weaken j i idxs n ((k, v) ∷ pvs) (a, behind) (at, h) = (
    ground (arith, o.eq_iff k j, o.lt_irrefl k),
    AreNumbered-weaken j i idxs (n + 1) pvs behind h,
  )

  AreNumbered-numbered :
      (n : ℕ) (pvs : BTreeMap D (Pv D))
      → AreKeyed pvs
      → IsSorted pvs
      → AreNumbered (numbered n (values pvs)) n pvs
  unfolding numbered get
  AreNumbered-numbered n [] h s = tt
  AreNumbered-numbered n ((k, v) ∷ pvs) (named_k, h) (a, s) =
      let self : o.eq k k ≡ true = (o.eq_iff k k).1 refl in
      (
        rw (named_k, self) refl,
        AreNumbered-weaken v.device n (numbered (n + 1) (values pvs)) (n + 1) pvs (rw named_k a)
            (AreNumbered-numbered (n + 1) pvs h s),
      )

  pub AreNumbered-dev_to_idx :
      (vg : Vg D) → AreKeyed vg.pvs → IsSorted vg.pvs → AreNumbered (dev_to_idx vg) 0 vg.pvs
  AreNumbered-dev_to_idx vg h s =
      rw (dev_to_idx-numbered vg h s) (AreNumbered-numbered 0 vg.pvs h s)

  -- The section of the physical volumes is the map of their texts under their names.
  pub store_pvs-named :
      (to_u64 : D → ℕ) (idxs : BTreeMap D ℕ) (n : ℕ) (pvs : BTreeMap D (Pv D))
      (m : BTreeMap Bytes TextMap)
      → AreNumbered idxs n pvs
      → store_pvs to_u64 idxs pvs (sections m)
        ≡ ok (sections (collect (map_values (Pv.to_textmap to_u64) (named n pvs)) m))
  unfolding store_pvs collect
  store_pvs-named to_u64 idxs n [] m h = refl
  store_pvs-named to_u64 idxs n ((k, v) ∷ pvs) m (at, h) =
      let t = Pv.to_textmap to_u64 v in
      rw (at, insert-sections (pv_name n) t m)
        (store_pvs-named to_u64 idxs (n + 1) pvs (BTree.insert (pv_name n) t m) h)

  by_device-insert :
      (k : Bytes) (v : Pv D) (names : BTreeMap Bytes (Pv D)) (m : BTreeMap D (Pv D))
      → get k names ≡ none
      → get v.device (by_device (values names)) ≡ none
      → collect (by_device (values (BTree.insert k v names))) m
        ≡ BTree.insert v.device v (collect (by_device (values names)) m)
  unfolding collect BTree.insert get
  by_device-insert k v [] m h g = refl
  by_device-insert k v ((j, w) ∷ names) m h g = elim (Bool-cases (before k j)) [
    | inl first ↦
        rw first (collect-insert v.device v ((w.device, w) ∷ by_device (values names)) m g)
    | inr behind ↦ elim (Bool-cases (same k j)) [
      | inl same_key ↦ ground arith
      | inr other ↦
          rw (behind, other)
            (by_device-insert k v names (BTree.insert w.device w m) (ground arith) (ground arith))
    ]
  ]

  get-by_device-insert :
      (d : D) (k : Bytes) (v : Pv D) (names : BTreeMap Bytes (Pv D))
      → o.eq d v.device ≡ false
      → get d (by_device (values names)) ≡ none
      → get d (by_device (values (BTree.insert k v names))) ≡ none
  unfolding get BTree.insert
  get-by_device-insert d k v [] h g = rw h refl
  get-by_device-insert d k v ((j, w) ∷ names) h g =
      ground (arith, get-by_device-insert d k v names h)

  -- No name from number `n` on, and no device of the volumes `pvs`, is in `names`.
  record AreNew (n : ℕ) (pvs : BTreeMap D (Pv D)) (names : BTreeMap Bytes (Pv D)) : Type 0 where
    names_new : (i : ℕ) → n ≤ i → get (pv_name i) names ≡ none
    devices_new : (d : D) → contains_key d pvs ≡ true → get d (by_device (values names)) ≡ none

  AreNew-insert :
      (n : ℕ) (k : D) (v : Pv D) (pvs : BTreeMap D (Pv D)) (names : BTreeMap Bytes (Pv D))
      → v.device ≡ k
      → IsAfter k pvs
      → AreNew n ((k, v) ∷ pvs) names
      → AreNew (n + 1) pvs (BTree.insert (pv_name n) v names)
  unfolding contains_key
  AreNew-insert n k v pvs names named_k a h = record {
    names_new = λ i le. ground (
      arith,
      get-insert (pv_name i) (pv_name n) v names,
      pv_name_ne n i,
      same_iff (pv_name i) (pv_name n),
      same_iff (pv_name n) (pv_name i),
      h.names_new i,
    );
    devices_new = λ d there.
        get-by_device-insert d (pv_name n) v names
          (ground (arith, named_k, o.eq_iff d k, contains_key-get k pvs, get-IsAfter k pvs a))
          (h.devices_new d (ground arith));
  }

  -- The volumes that were read by their names are ordered by their devices again.
  by_device-named :
      (n : ℕ) (pvs : BTreeMap D (Pv D)) (names : BTreeMap Bytes (Pv D))
      → AreKeyed pvs
      → IsSorted pvs
      → AreNew n pvs names
      → collect (by_device (values (collect (named n pvs) names))) []
        ≡ collect pvs (collect (by_device (values names)) [])
  unfolding collect
  by_device-named n [] names h s new = refl
  by_device-named n ((k, v) ∷ pvs) names (named_k, h) (a, s) new =
      let self : o.eq v.device k ≡ true = (o.eq_iff v.device k).1 named_k in
      let put =
        by_device-insert (pv_name n) v names [] (new.names_new n (omega arith))
          (new.devices_new v.device (unfold contains_key in rw self refl)) in
      by_device-named (n + 1) pvs (BTree.insert (pv_name n) v names) h s
        (AreNew-insert n k v pvs names named_k a new)
      ∙ ap (collect pvs)
          (put ∙ ap (λ d. BTree.insert d v (collect (by_device (values names)) [])) named_k)

  pub by_device-collect :
      (pvs : BTreeMap D (Pv D))
      → AreKeyed pvs
      → IsSorted pvs
      → collect (by_device (values (collect (named 0 pvs) []))) [] ≡ pvs
  unfolding get collect
  by_device-collect pvs h s =
      by_device-named 0 pvs [] h s
        (record { names_new = λ i le. refl; devices_new = λ d there. refl })
      ∙ collect-IsSorted pvs s

  -- An earlier name keeps its volume.
  get-named :
      (i n : ℕ) (pvs : BTreeMap D (Pv D)) (names : BTreeMap Bytes (Pv D))
      → i < n
      → get (pv_name i) (collect (named n pvs) names) ≡ get (pv_name i) names
  unfolding collect
  get-named i n [] names lt = refl
  get-named i n ((k, v) ∷ pvs) names lt =
      get-named i (n + 1) pvs (BTree.insert (pv_name n) v names) (omega arith)
      ∙ rw (get-insert, pv_name_ne i n lt)

  -- The number of a volume's device names that volume.
  pub IsLinked-named :
      (dev : D) (idxs : BTreeMap D ℕ) (n : ℕ) (pvs : BTreeMap D (Pv D))
      (names : BTreeMap Bytes (Pv D))
      → AreKeyed pvs
      → AreNumbered idxs n pvs
      → contains_key dev pvs ≡ true
      → IsLinked idxs (collect (named n pvs) names) dev
  unfolding contains_key collect
  IsLinked-named dev idxs n [] names h num there = cc
  IsLinked-named dev idxs n ((k, v) ∷ pvs) names (named_k, h) (at, num) there =
      elim (Bool-cases (o.eq dev k)) [
        | inl same_device ↦
            let here : dev ≡ k = (o.eq_iff dev k).0 same_device in
            (
              n,
              v,
              rw here at,
              get-named n (n + 1) pvs (BTree.insert (pv_name n) v names) (omega arith)
                  ∙ rw (get-insert, same_refl (pv_name n)),
              cc,
            )
        | inr other ↦
            IsLinked-named dev idxs (n + 1) pvs (BTree.insert (pv_name n) v names) h num
              (ground arith)
      ]
