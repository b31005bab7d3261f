-- ===== src/Vg/Around.antt =====
-- The two loops of `free_areas` of src/vg.rs: over the devices in use, and over those that are not.
use melvin.Prelude.{
  ℕ, ◌<◌, ◌≡◌, refl, sym, ap, ◌∙◌, true, false, List, [], ◌∷◌, none, some, two64, if◌then◌else◌,
  arith, ok, Bool-cases, inl, inr,
}
use melvin.BTree.{Ord, BTreeMap, insert, get, contains_key, values}
use melvin.BTree.Laws.{get-insert, contains_key-get, IsSorted, insert-IsSorted, get-IsAfter}
use melvin.Types.{Pv, Lv, Vg}
use melvin.Lv
use melvin.Vg.{
  Areas, nat_ord, or_new, add_area, add_areas, areas_of_lvs, fold_areas, around_used, add_unused,
  used_areas,
}
use melvin.Vg.Gaps.{IsLayout, gaps, insert_end, found_gaps, get-fold_areas, get-fold_areas_ne}

module _ {D : Type 0} ⦃o : Ord D⦄ where
  -- Every device of a map of areas is the device of a volume.
  abbrev pub HavePvs : BTreeMap D (Pv D) → BTreeMap D Areas → Type 0
  HavePvs pvs [] = Unit
  HavePvs pvs ((dev, _) ∷ rest) = ((pv : Pv D) × (get dev pvs ≡ some pv)) × HavePvs pvs rest

  add_areas-IsSorted :
      (areas : List (D × ℕ × ℕ)) (m : BTreeMap D Areas) → IsSorted m → IsSorted (add_areas areas m)
  unfolding add_areas add_area
  add_areas-IsSorted [] m s = s
  add_areas-IsSorted ((dev, start, len) ∷ rest) m s =
      add_areas-IsSorted rest (add_area dev start len m)
        (insert-IsSorted dev (insert start len (or_new (get dev m))) m s)

  areas_of_lvs-IsSorted :
      (lvs : List (Lv D)) (m : BTreeMap D Areas) → IsSorted m → IsSorted (areas_of_lvs lvs m)
  unfolding areas_of_lvs
  areas_of_lvs-IsSorted [] m s = s
  areas_of_lvs-IsSorted (lv ∷ lvs) m s =
      areas_of_lvs-IsSorted lvs (add_areas (Lv.used_areas lv) m)
        (add_areas-IsSorted (Lv.used_areas lv) m s)

  pub used_areas-IsSorted : (vg : Vg D) → IsSorted (used_areas vg)
  unfolding used_areas
  used_areas-IsSorted vg = areas_of_lvs-IsSorted (values vg.lvs) [] tt

  -- One step of the second loop.
  abbrev add_whole : D → Pv D → BTreeMap D Areas → BTreeMap D Areas
  add_whole d pv fm = if contains_key d fm then fm else insert d ((0, pv.pe_count) ∷ []) fm

  contains_key-some :
      (d : D) (areas : Areas) (fm : BTreeMap D Areas)
      → get d fm ≡ some areas
      → contains_key d fm ≡ true
  contains_key-some d areas fm h = contains_key-get d fm ∙ rw h

  contains_key-none : (d : D) (fm : BTreeMap D Areas) → get d fm ≡ none → contains_key d fm ≡ false
  contains_key-none d fm h = contains_key-get d fm ∙ rw h

  get-add_whole :
      (dev d : D) (pv : Pv D) (fm : BTreeMap D Areas)
      → get dev (add_whole d pv fm) ≡ (
          if contains_key d fm
          then get dev fm
          else if o.eq dev d
          then some ((0, pv.pe_count) ∷ [])
          else get dev fm)
  get-add_whole dev d pv fm = elim (Bool-cases (contains_key d fm)) [
    | inl there ↦ rw there
    | inr missing ↦ rw missing (get-insert dev d ((0, pv.pe_count) ∷ []) fm)
  ]

  pub get-add_unused-some :
      (dev : D) (areas : Areas) (pvs : List (D × Pv D)) (fm : BTreeMap D Areas)
      → get dev fm ≡ some areas
      → get dev (add_unused pvs fm) ≡ some areas
  unfolding add_unused
  get-add_unused-some dev areas [] fm h = h
  get-add_unused-some dev areas ((d, pv) ∷ pvs) fm h =
      get-add_unused-some dev areas pvs (add_whole d pv fm) (
        ground (arith, get-add_whole dev d pv fm, contains_key-some dev areas fm h, o.eq_iff dev d))

  pub get-add_unused-none :
      (dev : D) (pv : Pv D) (pvs : List (D × Pv D)) (fm : BTreeMap D Areas)
      → get dev fm ≡ none
      → get dev pvs ≡ some pv
      → get dev (add_unused pvs fm) ≡ some ((0, pv.pe_count) ∷ [])
  unfolding add_unused get
  get-add_unused-none dev pv [] fm h g = cc
  get-add_unused-none dev pv ((d, pw) ∷ pvs) fm h g = elim (Bool-cases (o.eq dev d)) [
    | inl self ↦
        let here : pw ≡ pv = ground arith in
        let d_eq = (o.eq_iff dev d).0 self in
        let missing : contains_key d fm ≡ false = rw (sym d_eq) (contains_key-none dev fm h) in
        get-add_unused-some dev ((0, pv.pe_count) ∷ []) pvs (add_whole d pw fm)
          (get-add_whole dev d pw fm ∙ rw (missing, self, here))
    | inr other ↦
        let there : get dev pvs ≡ some pv = ground arith in
        get-add_unused-none dev pv pvs (add_whole d pw fm)
          (ground (arith, get-add_whole dev d pw fm)) there
  ]

  pub around_used-get_ne :
      (dev : D) (pvs : BTreeMap D (Pv D)) (used : BTreeMap D Areas) (fm : BTreeMap D Areas)
      → HavePvs pvs used
      → get dev used ≡ none
      → (fm2 : BTreeMap D Areas) × (around_used pvs used fm ≡ ok fm2) × (get dev fm2 ≡ get dev fm)
  unfolding around_used get
  around_used-get_ne dev pvs [] fm h g = (fm, refl, refl)
  around_used-get_ne dev pvs ((d, areas) ∷ rest) fm ((pv, at), hs) g =
      let other : o.eq dev d ≡ false = ground arith in
      let there : get dev rest ≡ none = ground arith in
      let (fm2, e, same_dev) =
        around_used-get_ne dev pvs rest (fold_areas d 0 (insert pv.pe_count 0 areas) fm) hs there in
      (fm2, rw at e, same_dev ∙ get-fold_areas_ne dev d 0 (insert pv.pe_count 0 areas) fm other)

  pub around_used-get :
      (dev : D) (pv : Pv D) (areas : Areas) (pvs : BTreeMap D (Pv D)) (used : BTreeMap D Areas)
      (fm : BTreeMap D Areas)
      → IsSorted used
      → HavePvs pvs used
      → get dev used ≡ some areas
      → get dev pvs ≡ some pv
      → IsLayout 0 pv.pe_count areas
      → pv.pe_count < two64
      → get dev fm ≡ none
      → (fm2 : BTreeMap D Areas) × (around_used pvs used fm ≡ ok fm2)
        × (get dev fm2 ≡ found_gaps none (gaps 0 pv.pe_count areas))
  unfolding around_used get
  around_used-get dev pv areas pvs [] fm s h g p l b n = cc
  around_used-get dev pv areas pvs ((d, areas2) ∷ rest) fm (after, s) ((pw, at), hs) g p l b n =
      elim (Bool-cases (o.eq dev d)) [
        | inl self ↦
            let d_eq : dev ≡ d = (o.eq_iff dev d).0 self in
            let e1 : areas2 ≡ areas = ground arith in
            let e2 : pw ≡ pv = cc in
            let gone : get dev rest ≡ none = rw d_eq (get-IsAfter d rest after) in
            let found : get dev (fold_areas d 0 (insert pw.pe_count 0 areas2) fm)
                ≡ found_gaps none (gaps 0 pv.pe_count areas) =
              rw (sym d_eq, e1, e2, insert_end 0 pv.pe_count areas l)
                (get-fold_areas dev 0 pv.pe_count areas fm l b (rw n tt)
                  ∙ ap (λ old. found_gaps old (gaps 0 pv.pe_count areas)) n) in
            let (fm2, e, same_dev) =
              around_used-get_ne dev pvs rest (fold_areas d 0 (insert pw.pe_count 0 areas2) fm) hs
                gone in
            (fm2, rw at e, same_dev ∙ found)
        | inr other ↦
            let there : get dev rest ≡ some areas = ground arith in
            let (fm2, e, found) =
              around_used-get dev pv areas pvs rest
                (fold_areas d 0 (insert pw.pe_count 0 areas2) fm) s hs there p l b
                (get-fold_areas_ne dev d 0 (insert pw.pe_count 0 areas2) fm other ∙ n) in
            (fm2, rw at e, found)
      ]
