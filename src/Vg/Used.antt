-- ===== src/Vg/Used.antt =====
-- The areas of logical volumes in `used_areas` of src/vg.rs, and what `free_areas` says of them.
use melvin.Prelude.{
  ℕ, ◌+◌, ◌<◌, ◌≤◌, ◌≡◌, refl, sym, ap, ◌∙◌, true, false, not, ◌==◌, List, [], ◌∷◌, Option, some,
  two64, arith, ok, Bool-cases, inl, inr, if◌then◌else◌,
}
use mathlib.Core.List.{Memᴰ}
use mathlib.Core.List.Memᴰ.{head, tail}
use melvin.BTree.{Ord, BTreeMap, insert, get, values}
use melvin.BTree.Laws.{get-insert}
use melvin.Types.{Pv, Lv, Vg}
use melvin.Lv
use melvin.Vg.{Areas, nat_ord, or_new, add_area, add_areas, areas_of_lvs, used_areas, free_areas}
use melvin.Vg.Gaps.{covers, IsLayout}
use melvin.Vg.Around.{HavePvs}
use melvin.Vg.Free.{free_areas-complement}

-- The extents of an area that a map of areas has are covered.
pub covers-get :
    (start len e : ℕ) (areas : Areas)
    → get start areas ≡ some len
    → start ≤ e
    → e < start + len
    → covers areas e ≡ true
unfolding get
covers-get start len e [] there low high = cc
covers-get start len e ((s, l) ∷ areas) there low high = elim (Bool-cases (start == s)) [
  | inl here ↦ let same_len : l ≡ len = ground arith in ground arith
  | inr other ↦
      let later : get start areas ≡ some len = ground arith in
      let rest = covers-get start len e areas later low high in ground arith
]

module _ {D : Type 0} ⦃o : Ord D⦄ where
  -- A logical volume of the group uses the area.
  abbrev pub IsUsed : Vg D → D → ℕ → ℕ → Type 0
  IsUsed vg dev start len =
      (lv : Lv D) × (Memᴰ lv (values vg.lvs)) × (Memᴰ (dev, start, len) (Lv.used_areas lv))

module _ {D : Type 0} ⦃o : Ord D⦄ (dev : D) (start len : ℕ) where
  -- The length that the map has for the first extent `start` of the device.
  abbrev noted : BTreeMap D Areas → Option ℕ
  noted m = get start (or_new (get dev m))

  noted-add_area :
      (d : D) (s l : ℕ) (m : BTreeMap D Areas)
      → noted (add_area d s l m) ≡ (
          if o.eq dev d
          then (if start == s then some l else get start (or_new (get d m)))
          else noted m)
  unfolding add_area
  noted-add_area d s l m =
      ap (λ a. get start (or_new a)) (get-insert dev d (insert s l (or_new (get d m))) m)
      ∙ elim (Bool-cases (o.eq dev d)) [
        | inl self ↦ rw self (get-insert start s l (or_new (get d m)))
        | inr other ↦ rw other refl
      ]

  -- Areas from the same extent on have the same length.
  abbrev IsOnly : List (D × ℕ × ℕ) → Type 0
  IsOnly areas = (l : ℕ) → Memᴰ (dev, start, l) areas → l ≡ len

  add_area-keeps :
      (d : D) (s l : ℕ) (rest : List (D × ℕ × ℕ)) (m : BTreeMap D Areas)
      → IsOnly ((d, s, l) ∷ rest)
      → noted m ≡ some len
      → noted (add_area d s l m) ≡ some len
  add_area-keeps d s l rest m only h = noted-add_area d s l m ∙ elim (Bool-cases (o.eq dev d)) [
    | inr other ↦ rw other h
    | inl self ↦
        let same_dev : dev ≡ d = (o.eq_iff dev d).0 self in
        let old : get start (or_new (get d m)) ≡ some len = rw (sym same_dev) h in
        elim (Bool-cases (start == s)) [
          | inr later ↦ rw (self, later) old
          | inl here ↦
              let same_start : start ≡ s = ground arith in
              let area : ◌≡◌ {A = D × ℕ × ℕ} (dev, start, l) (d, s, l) =
                λ i. (same_dev i, same_start i, l) in
              rw (self, here) (ap some (only l (head area)))
        ]
  ]

  add_areas-keeps :
      (areas : List (D × ℕ × ℕ)) (m : BTreeMap D Areas)
      → IsOnly areas
      → noted m ≡ some len
      → noted (add_areas areas m) ≡ some len
  unfolding add_areas
  add_areas-keeps [] m only h = h
  add_areas-keeps ((d, s, l) ∷ rest) m only h =
      add_areas-keeps rest (add_area d s l m) (λ l2 there. only l2 (tail there))
        (add_area-keeps d s l rest m only h)

  add_areas-noted :
      (areas : List (D × ℕ × ℕ)) (m : BTreeMap D Areas)
      → IsOnly areas
      → Memᴰ (dev, start, len) areas
      → noted (add_areas areas m) ≡ some len
  unfolding add_areas
  add_areas-noted [] m only there = elim there [ ]
  add_areas-noted ((d, s, l) ∷ rest) m only there =
      let later : IsOnly rest = λ l2 at. only l2 (tail at) in
      elim there [
        | tail deeper ↦ add_areas-noted rest (add_area d s l m) later deeper
        | head at ↦
            let self : o.eq dev d ≡ true = (o.eq_iff dev d).1 (ap (λ (x : D × ℕ × ℕ). x.0) at) in
            let same_start : start ≡ s = ap (λ (x : D × ℕ × ℕ). x.1) at in
            let same_len : len ≡ l = ap (λ (x : D × ℕ × ℕ). x.2) at in
            let here : (start == s) ≡ true = ground arith in
            add_areas-keeps rest (add_area d s l m) later
              (noted-add_area d s l m ∙ rw (self, here) (ap some (sym same_len)))
      ]

  -- No volume has an area of another length from `start` on.
  abbrev AreOnly : List (Lv D) → Type 0
  AreOnly lvs =
      (l : ℕ) (lv : Lv D) → Memᴰ lv lvs → Memᴰ (dev, start, l) (Lv.used_areas lv) → l ≡ len

  areas_of_lvs-keeps :
      (lvs : List (Lv D)) (m : BTreeMap D Areas)
      → AreOnly lvs
      → noted m ≡ some len
      → noted (areas_of_lvs lvs m) ≡ some len
  unfolding areas_of_lvs
  areas_of_lvs-keeps [] m only h = h
  areas_of_lvs-keeps (lv ∷ lvs) m only h =
      areas_of_lvs-keeps lvs (add_areas (Lv.used_areas lv) m)
        (λ l lv2 there. only l lv2 (tail there))
        (add_areas-keeps (Lv.used_areas lv) m (λ l. only l lv (head refl)) h)

  areas_of_lvs-noted :
      (lvs : List (Lv D)) (m : BTreeMap D Areas) (lv : Lv D)
      → AreOnly lvs
      → Memᴰ lv lvs
      → Memᴰ (dev, start, len) (Lv.used_areas lv)
      → noted (areas_of_lvs lvs m) ≡ some len
  unfolding areas_of_lvs
  areas_of_lvs-noted [] m lv only there at = elim there [ ]
  areas_of_lvs-noted (lv2 ∷ lvs) m lv only there at =
      let later : AreOnly lvs = λ l lv3 in_rest. only l lv3 (tail in_rest) in
      elim there [
        | tail deeper ↦ areas_of_lvs-noted lvs (add_areas (Lv.used_areas lv2) m) lv later deeper at
        | head same_lv ↦ areas_of_lvs-keeps lvs (add_areas (Lv.used_areas lv2) m) later (
            add_areas-noted (Lv.used_areas lv2) m (λ l. only l lv2 (head refl))
              (rw (sym same_lv) at))
      ]

module _ {D : Type 0} ⦃o : Ord D⦄ where
  -- If no two areas on the device start at the same extent with different lengths, `used_areas` has
  -- each area of a logical volume.
  pub used_areas-noted :
      (vg : Vg D) (dev : D) (start len : ℕ)
      → ((k : ℕ) → IsUsed vg dev start k → k ≡ len)
      → IsUsed vg dev start len
      → get start (or_new (get dev (used_areas vg))) ≡ some len
  unfolding used_areas
  used_areas-noted vg dev start len one (lv, there, at) =
      areas_of_lvs-noted dev start len (values vg.lvs) [] lv
        (λ k lv2 there2 at2. one k (lv2, there2, at2)) there at

  -- If every used device has its volume, the entries of `used_areas` for a volume of fewer than 2^64 extents ascend, do not overlap, are
  -- not empty and leave some extent out, and no two areas of logical volumes on the device start at the same extent with different
  -- lengths, then `free_areas` succeeds, and of an extent of the volume that is in an area of a logical volume its areas say that it
  -- is not free.
  pub free_areas-disjoint :
      (vg : Vg D) (dev : D) (pv : Pv D) (areas : Areas) (unused start len e : ℕ)
      → HavePvs vg.pvs (used_areas vg)
      → get dev vg.pvs ≡ some pv
      → get dev (used_areas vg) ≡ some areas
      → IsLayout 0 pv.pe_count areas
      → pv.pe_count < two64
      → unused < pv.pe_count
      → covers areas unused ≡ false
      → ((first l k : ℕ) → IsUsed vg dev first l → IsUsed vg dev first k → l ≡ k)
      → IsUsed vg dev start len
      → start ≤ e
      → e < start + len
      → e < pv.pe_count
      → (fm : BTreeMap D Areas) × (free : Areas) × (free_areas vg ≡ ok fm)
        × (get dev fm ≡ some free)
        × (covers free e ≡ false)
  free_areas-disjoint vg dev pv areas unused start len e h p g l b u c one used low high below =
      let (fm, free, done, found, complement) =
        free_areas-complement vg dev pv areas unused e h p g l b u c below in
      let kept : get start (or_new (get dev (used_areas vg))) ≡ some len =
        used_areas-noted vg dev start len (λ k other. one start k len other used) used in
      let covered = covers-get start len e areas (rw g at kept) low high in
      (fm, free, done, found, complement ∙ ap not covered)
