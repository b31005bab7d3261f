-- ===== src/Vg/Total.antt =====
-- `free_areas` of src/vg.rs for a consistent group: it does not panic, and its areas are on the group's
-- own physical volumes.
use melvin.Prelude.{
  ℕ, ◌+◌, ◌%◌, ◌-◌, two64, ltb, ◌≡◌, refl, ap, true, List, [], ◌∷◌, ◌++◌, none, some, arith,
  Bool-cases, Option-cases, inl, inr, ok,
}
use mathlib.Core.List.{Memᴰ}
use mathlib.Core.List.Memᴰ.{head, tail}
use melvin.BTree.{Ord, BTreeMap, bytes_ord, insert, get, contains_key, values}
use melvin.BTree.Laws.{contains_key-get}
use melvin.Types.{Pv, Lv, Vg, Segment, striped, thinpool, thin}
use melvin.Lv
use melvin.Lv.{areas_of}
use melvin.Lv.Segments
use melvin.Lv.Segments.{areas_from, devices_of, pv_dependencies}
use melvin.Vg.{
  nat_ord, Areas, add_area, add_areas, areas_of_lvs, or_new, used_areas, fold_areas, around_used,
  add_unused, free_areas, find_contig,
}
use melvin.Vg.Around.{HavePvs}
use melvin.Vg.Search.{find_contig-fits}
use melvin.Vg.Physical.{any_device, any_segment, in_use}
use melvin.Vg.Consistent.{IsConsistent}

module _ {D V : Type 0} ⦃o : Ord D⦄ where
  pub contains_key-found :
      (k : D) (m : BTreeMap D V) → contains_key k m ≡ true → (v : V) × (get k m ≡ some v)
  contains_key-found k m h = elim (Option-cases (get k m)) [
    | inl missing ↦ let e = contains_key-get k m in ground arith
    | inr found ↦ found
  ]

module _ {D : Type 0} ⦃o : Ord D⦄ (pvs : BTreeMap D (Pv D)) where
  -- The device has its volume.
  abbrev Has : D → Type 0
  Has dev = (pv : Pv D) × (get dev pvs ≡ some pv)

  HavePvs-insert :
      (dev : D) (areas : Areas) (m : BTreeMap D Areas)
      → Has dev
      → HavePvs pvs m
      → HavePvs pvs (insert dev areas m)
  unfolding insert
  HavePvs-insert dev areas [] h hs = (h, tt)
  HavePvs-insert dev areas ((d, a) ∷ m) h (g, gs) = elim (Bool-cases (o.lt dev d)) [
    | inl before ↦ rw before (h, (g, gs))
    | inr later ↦ elim (Bool-cases (o.eq dev d)) [
      | inl self ↦ rw (later, self) (h, gs)
      | inr other ↦ rw (later, other) (g, HavePvs-insert dev areas m h gs)
    ]
  ]

  abbrev AllHave : List (D × ℕ × ℕ) → Type 0
  AllHave [] = Unit
  AllHave ((dev, start, len) ∷ areas) = Has dev × AllHave areas

  AllHave-append : (a b : List (D × ℕ × ℕ)) → AllHave a → AllHave b → AllHave (a ++ b)
  AllHave-append [] b h k = k
  AllHave-append ((dev, start, len) ∷ a) b (h, hs) k = (h, AllHave-append a b hs k)

  AllHave-areas_from :
      (count : ℕ) (stripes : List (D × ℕ))
      → ((e : D) → any_device e (devices_of stripes) ≡ true → contains_key e pvs ≡ true)
      → AllHave (areas_from count stripes)
  AllHave-areas_from count [] h = tt
  AllHave-areas_from count ((dev, ext) ∷ stripes) h =
      let self : o.eq dev dev ≡ true = (o.eq_iff dev dev).1 refl in
      (
        contains_key-found dev pvs (h dev (rw self refl)),
        AllHave-areas_from count stripes (λ e used. h e (ground arith)),
      )

  AllHave-segment :
      (s : Segment D)
      → ((e : D) → any_device e (pv_dependencies s) ≡ true → contains_key e pvs ≡ true)
      → AllHave (Segments.used_areas s)
  unfolding Segments.used_areas pv_dependencies
  AllHave-segment (striped s) h = AllHave-areas_from s.extent_count s.stripes h
  AllHave-segment (thinpool s) h = tt
  AllHave-segment (thin s) h = tt

  AllHave-areas_of :
      (segs : List (Segment D))
      → ((e : D) → any_segment e segs ≡ true → contains_key e pvs ≡ true)
      → AllHave (areas_of segs)
  AllHave-areas_of [] h = tt
  AllHave-areas_of (s ∷ ss) h =
      AllHave-append (Segments.used_areas s) (areas_of ss)
        (AllHave-segment s (λ e used. h e (rw used refl)))
        (AllHave-areas_of ss (λ e used. h e (ground arith)))

  HavePvs-add_areas :
      (areas : List (D × ℕ × ℕ)) (m : BTreeMap D Areas)
      → AllHave areas
      → HavePvs pvs m
      → HavePvs pvs (add_areas areas m)
  unfolding add_area add_areas
  HavePvs-add_areas [] m h hs = hs
  HavePvs-add_areas ((dev, start, len) ∷ areas) m (h, k) hs =
      HavePvs-add_areas areas (add_area dev start len m) k
        (HavePvs-insert dev (insert start len (or_new (get dev m))) m h hs)

  HavePvs-areas_of_lvs :
      (lvs : List (Lv D)) (m : BTreeMap D Areas)
      → ((e : D) → in_use e lvs ≡ true → contains_key e pvs ≡ true)
      → HavePvs pvs m
      → HavePvs pvs (areas_of_lvs lvs m)
  unfolding areas_of_lvs Lv.used_areas
  HavePvs-areas_of_lvs [] m h hs = hs
  HavePvs-areas_of_lvs (lv ∷ lvs) m h hs =
      HavePvs-areas_of_lvs lvs (add_areas (Lv.used_areas lv) m) (λ e used. h e (ground arith))
        (HavePvs-add_areas (Lv.used_areas lv) m
          (AllHave-areas_of lv.segments (λ e used. h e (rw used refl))) hs)

  HavePvs-fold_areas :
      (dev : D) (prev : ℕ) (areas : Areas) (fm : BTreeMap D Areas)
      → Has dev
      → HavePvs pvs fm
      → HavePvs pvs (fold_areas dev prev areas fm)
  unfolding fold_areas add_area
  HavePvs-fold_areas dev prev [] fm h hs = hs
  HavePvs-fold_areas dev prev ((start, len) ∷ areas) fm h hs = elim (Bool-cases (ltb prev start)) [
    | inl gap ↦ rw gap (
        HavePvs-fold_areas dev ((start + len) % two64) areas (add_area dev prev (start - prev) fm) h
          (HavePvs-insert dev (insert prev (start - prev) (or_new (get dev fm))) fm h hs))
    | inr next ↦ rw next (HavePvs-fold_areas dev ((start + len) % two64) areas fm h hs)
  ]

  HavePvs-around_used :
      (used fm : BTreeMap D Areas)
      → HavePvs pvs used
      → HavePvs pvs fm
      → (fm2 : BTreeMap D Areas) × (around_used pvs used fm ≡ ok fm2) × HavePvs pvs fm2
  unfolding around_used
  HavePvs-around_used [] fm h hs = (fm, refl, hs)
  HavePvs-around_used ((dev, areas) ∷ rest) fm ((pv, at), h) hs =
      let (fm2, e, all) =
        HavePvs-around_used rest (fold_areas dev 0 (insert pv.pe_count 0 areas) fm) h
          (HavePvs-fold_areas dev 0 (insert pv.pe_count 0 areas) fm (pv, at) hs) in
      (fm2, rw at e, all)

  HavePvs-add_unused :
      (rest : List (D × Pv D)) (fm : BTreeMap D Areas)
      → ((e : D) → contains_key e rest ≡ true → contains_key e pvs ≡ true)
      → HavePvs pvs fm
      → HavePvs pvs (add_unused rest fm)
  unfolding add_unused contains_key
  HavePvs-add_unused [] fm h hs = hs
  HavePvs-add_unused ((dev, pv) ∷ rest) fm h hs =
      let self : o.eq dev dev ≡ true = (o.eq_iff dev dev).1 refl in
      let later : (e : D) → contains_key e rest ≡ true → contains_key e pvs ≡ true =
        λ e there. h e (ground arith) in
      elim (Bool-cases (contains_key dev fm)) [
        | inl there ↦ rw there (HavePvs-add_unused rest fm later hs)
        | inr missing ↦ rw missing (
            HavePvs-add_unused rest (insert dev ((0, pv.pe_count) ∷ []) fm) later (
              HavePvs-insert dev ((0, pv.pe_count) ∷ []) fm
                (contains_key-found dev pvs (h dev (rw self refl))) hs))
      ]

  HavePvs-Mem :
      (dev : D) (areas : Areas) (m : BTreeMap D Areas)
      → Memᴰ (dev, areas) m
      → HavePvs pvs m
      → Has dev
  HavePvs-Mem dev areas [] m h = elim m [ ]
  HavePvs-Mem dev areas ((d, a) ∷ rest) m (h, hs) = elim m [
    | head at ↦ let same_dev : dev ≡ d = ap (λ (x : D × Areas). x.0) at in rw same_dev h
    | tail there ↦ HavePvs-Mem dev areas rest there hs
  ]

module _ {D : Type 0} ⦃o : Ord D⦄ where
  pub used_areas-HavePvs : (vg : Vg D) → IsConsistent vg → HavePvs vg.pvs (used_areas vg)
  unfolding used_areas
  used_areas-HavePvs vg h = HavePvs-areas_of_lvs vg.pvs (values vg.lvs) [] h.standing tt

  -- For a group in which every used device has its volume, `free_areas` succeeds, and every device of the
  -- areas that it returns has its volume.
  pub free_areas-HavePvs :
      (vg : Vg D)
      → IsConsistent vg
      → (fm : BTreeMap D Areas) × (free_areas vg ≡ ok fm) × HavePvs vg.pvs fm
  unfolding free_areas
  free_areas-HavePvs vg h =
      let (fm, e, all) =
        HavePvs-around_used vg.pvs (used_areas vg) [] (used_areas-HavePvs vg h) tt in
      (add_unused vg.pvs fm, rw e refl, HavePvs-add_unused vg.pvs vg.pvs fm (λ _ there. there) all)

  -- The device that the search finds has its volume.
  pub find_contig-Has :
      (vg : Vg D) (fm : BTreeMap D Areas) (extent_size : ℕ) (dev : D) (start len : ℕ)
      → HavePvs vg.pvs fm
      → find_contig extent_size fm none ≡ some (dev, start, len)
      → (pv : Pv D) × (get dev vg.pvs ≡ some pv)
  find_contig-Has vg fm extent_size dev start len h found =
      let (_, (areas, there, _)) = find_contig-fits extent_size fm dev start len found in
      HavePvs-Mem vg.pvs dev areas fm there h
