-- ===== src/Vg/Free.antt =====
-- What `free_areas` of src/vg.rs returns for a volume.
use melvin.Prelude.{
  ℕ, ◌<◌, ◌≡◌, refl, ap, ◌∙◌, true, false, List, [], ◌∷◌, none, some, two64, arith, ok, Bool-cases,
  inl, inr, ◌≤◌, ◌+◌, ltb, not,
}
use melvin.BTree.{Ord, BTreeMap, get}
use melvin.Types.{Pv, Vg}
use melvin.Vg.{Areas, nat_ord, add_unused, free_areas, used_areas}
use melvin.Vg.Gaps.{covers, IsLayout, gaps, gaps-complement, covers-before, layout_le, found_gaps}
use melvin.Vg.Around.{
  HavePvs, used_areas-IsSorted, around_used-get_ne, around_used-get, get-add_unused-some,
  get-add_unused-none,
}

-- What is reported for a volume of `n` extents: the gaps, and the whole volume when there are none.
abbrev pub reported : ℕ → List (ℕ × ℕ) → List (ℕ × ℕ)
reported n [] = (0, n) ∷ []
reported n (g ∷ gs) = g ∷ gs

covers-cons : (n e : ℕ) (gs : List (ℕ × ℕ)) → covers gs e ≡ true → reported n gs ≡ gs
covers-cons n e [] h = cc
covers-cons n e (g ∷ gs) h = refl

no_gaps :
    (prev n : ℕ) (areas : List (ℕ × ℕ))
    → IsLayout prev n areas
    → ((e : ℕ) → prev ≤ e → e < n → covers areas e ≡ true)
    → gaps prev n areas ≡ []
no_gaps prev n [] l all = elim (Bool-cases (ltb prev n)) [
  | inl gap ↦ let bad = all prev (omega arith) (ground arith) in cc
  | inr full ↦ rw full refl
]
no_gaps prev n ((start, len) ∷ areas) (h, some_len, l) all =
    let le = layout_le (start + len) n areas l in
    let rest =
      no_gaps (start + len) n areas l
        (λ e at_least below. ground (arith, all e (omega arith) below)) in
    let bad : prev < start → covers areas prev ≡ false =
      λ gap. covers-before (start + len) n areas prev l (omega arith) in
    elim (Bool-cases (ltb prev start)) [
      | inl gap ↦
          let before_it : prev < start = ground arith in
          let covered = all prev (omega arith) (omega arith) in
          let missed = bad before_it in ground arith
      | inr next ↦ rw next rest
    ]

module _ {D : Type 0} ⦃o : Ord D⦄ where
  free_areas-used :
      (vg : Vg D) (dev : D) (pv : Pv D) (areas : Areas)
      → HavePvs vg.pvs (used_areas vg)
      → get dev vg.pvs ≡ some pv
      → get dev (used_areas vg) ≡ some areas
      → IsLayout 0 pv.pe_count areas
      → pv.pe_count < two64
      → (fm : BTreeMap D Areas) × (free_areas vg ≡ ok fm)
        × (get dev fm ≡ some (reported pv.pe_count (gaps 0 pv.pe_count areas)))
  unfolding free_areas get
  free_areas-used vg dev pv areas h p g l b =
      let (fm, e, found) =
        around_used-get dev pv areas vg.pvs (used_areas vg) [] (used_areas-IsSorted vg) h g p l b
          refl in
      (add_unused vg.pvs fm, rw e refl, at_end fm (gaps 0 pv.pe_count areas) found)
    where
      at_end :
          (fm : BTreeMap D Areas) (gs : List (ℕ × ℕ))
          → get dev fm ≡ found_gaps none gs
          → get dev (add_unused vg.pvs fm) ≡ some (reported pv.pe_count gs)
      at_end fm [] found = get-add_unused-none dev pv vg.pvs fm found p
      at_end fm (g ∷ gs) found = get-add_unused-some dev (g ∷ gs) vg.pvs fm found

  -- If every used device has its volume, a volume with no used area is reported as one free area.
  pub free_areas-unused :
      (vg : Vg D) (dev : D) (pv : Pv D)
      → HavePvs vg.pvs (used_areas vg)
      → get dev vg.pvs ≡ some pv
      → get dev (used_areas vg) ≡ none
      → (fm : BTreeMap D Areas) × (free_areas vg ≡ ok fm)
        × (get dev fm ≡ some ((0, pv.pe_count) ∷ []))
  unfolding free_areas get
  free_areas-unused vg dev pv h p g =
      let (fm, e, same_dev) = around_used-get_ne dev vg.pvs (used_areas vg) [] h g in
      (add_unused vg.pvs fm, rw e refl, get-add_unused-none dev pv vg.pvs fm same_dev p)

  -- If every used device has its volume, and the entries of `used_areas` for a volume of fewer than 2^64 extents ascend, do not overlap, are
  -- not empty and leave some extent out, then `free_areas` succeeds, and its areas for the volume cover an extent `e` exactly if no
  -- entry of `used_areas` covers it. `used_areas` keeps one entry for each first extent.
  pub free_areas-complement :
      (vg : Vg D) (dev : D) (pv : Pv D) (areas : Areas) (unused e : ℕ)
      → HavePvs vg.pvs (used_areas vg)
      → get dev vg.pvs ≡ some pv
      → get dev (used_areas vg) ≡ some areas
      → IsLayout 0 pv.pe_count areas
      → pv.pe_count < two64
      → unused < pv.pe_count
      → covers areas unused ≡ false
      → e < pv.pe_count
      → (fm : BTreeMap D Areas) × (free : Areas) × (free_areas vg ≡ ok fm)
        × (get dev fm ≡ some free)
        × (covers free e ≡ not (covers areas e))
  free_areas-complement vg dev pv areas unused e h p g l b u c below =
      let (fm, done, found) = free_areas-used vg dev pv areas h p g l b in
      let some_gap = gaps-complement 0 pv.pe_count areas unused l (omega arith) u ∙ ap not c in
      let all = covers-cons pv.pe_count unused (gaps 0 pv.pe_count areas) some_gap in
      (
        fm,
        gaps 0 pv.pe_count areas,
        done,
        found ∙ ap some all,
        gaps-complement 0 pv.pe_count areas e l (omega arith) below,
      )

  -- If every used device has its volume, and the entries of `used_areas` for a volume of fewer than 2^64 extents ascend, do not overlap, are
  -- not empty and cover every extent, then
  -- `free_areas` reports the whole volume as one free area.
  pub free_areas-full :
      (vg : Vg D) (dev : D) (pv : Pv D) (areas : Areas)
      → HavePvs vg.pvs (used_areas vg)
      → get dev vg.pvs ≡ some pv
      → get dev (used_areas vg) ≡ some areas
      → IsLayout 0 pv.pe_count areas
      → pv.pe_count < two64
      → ((e : ℕ) → e < pv.pe_count → covers areas e ≡ true)
      → (fm : BTreeMap D Areas) × (free_areas vg ≡ ok fm)
        × (get dev fm ≡ some ((0, pv.pe_count) ∷ []))
  free_areas-full vg dev pv areas h p g l b all =
      let (fm, e, found) = free_areas-used vg dev pv areas h p g l b in
      let none_left = no_gaps 0 pv.pe_count areas l (λ e at_least. all e) in
      (fm, e, found ∙ rw none_left)
