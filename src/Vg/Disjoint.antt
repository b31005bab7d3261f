-- ===== src/Vg/Disjoint.antt =====
-- Where `lv_create_linear` of src/vg.rs puts a volume, and the logical volumes that are there.
use melvin.Prelude.{
  ℕ, ◌+◌, ◌-◌, ◌%◌, ◌<◌, ◌≤◌, ◌≡◌, ◌≢◌, sym, ap, true, false, ltb, leb, ◌&&◌, List, [], ◌∷◌, Bytes,
  none, some, two64, arith, ok, unwrap, bind-inv, Bool-cases, Option-cases, inl, inr,
}
use mathlib.Core.List.{Memᴰ}
use mathlib.Core.List.Memᴰ.{head, tail}
use melvin.BTree.{Ord, BTreeMap, bytes_ord, insert, get, contains_key}
use melvin.BTree.Laws.{get-Mem, IsSorted, insert-IsSorted}
use melvin.Types.{Pv, Vg}
use melvin.Disk.{Devices}
use melvin.Vg.{
  Areas, nat_ord, or_new, add_area, fold_areas, around_used, add_unused, used_areas, free_areas,
}
use melvin.Vg.Gaps.{covers, IsLayout, layout_le}
use melvin.Vg.Around.{HavePvs}
use melvin.Vg.Search.{IsArea}
use melvin.Vg.Total.{used_areas-HavePvs}
use melvin.Vg.Consistent.{IsConsistent}
use melvin.Vg.Used.{covers-get, IsUsed, used_areas-noted, free_areas-disjoint}
use melvin.Vg.System.{System}
use melvin.Vg.Logical.{lv_create_linear, new_lv, linear_segment}
use melvin.Vg.Linear.{lv_create_linear-get}

module _ {D : Type 0} ⦃o : Ord D⦄ where
  fold_areas-IsSorted :
      (dev : D) (prev : ℕ) (areas : Areas) (fm : BTreeMap D Areas)
      → IsSorted fm
      → IsSorted (fold_areas dev prev areas fm)
  unfolding fold_areas add_area
  fold_areas-IsSorted dev prev [] fm s = s
  fold_areas-IsSorted dev prev ((start, len) ∷ areas) fm s = elim (Bool-cases (ltb prev start)) [
    | inl gap ↦ rw gap (
        fold_areas-IsSorted dev ((start + len) % two64) areas (add_area dev prev (start - prev) fm)
          (insert-IsSorted dev (insert prev (start - prev) (or_new (get dev fm))) fm s))
    | inr next ↦ rw next (fold_areas-IsSorted dev ((start + len) % two64) areas fm s)
  ]

  around_used-IsSorted :
      (pvs : BTreeMap D (Pv D)) (used : List (D × Areas)) (fm fm2 : BTreeMap D Areas)
      → IsSorted fm
      → around_used pvs used fm ≡ ok fm2
      → IsSorted fm2
  unfolding around_used
  around_used-IsSorted pvs [] fm fm2 s h = let same_map : fm ≡ fm2 = cc in rw (sym same_map) s
  around_used-IsSorted pvs ((dev, areas) ∷ rest) fm fm2 s h =
      let (pv, _, h2) = bind-inv (unwrap (get dev pvs)) _ fm2 h in
      around_used-IsSorted pvs rest (fold_areas dev 0 (insert pv.pe_count 0 areas) fm) fm2
        (fold_areas-IsSorted dev 0 (insert pv.pe_count 0 areas) fm s) h2

  add_unused-IsSorted :
      (pvs : List (D × Pv D)) (fm : BTreeMap D Areas) → IsSorted fm → IsSorted (add_unused pvs fm)
  unfolding add_unused
  add_unused-IsSorted [] fm s = s
  add_unused-IsSorted ((dev, pv) ∷ pvs) fm s = elim (Bool-cases (contains_key dev fm)) [
    | inl there ↦ rw there (add_unused-IsSorted pvs fm s)
    | inr missing ↦ rw missing (
        add_unused-IsSorted pvs (insert dev ((0, pv.pe_count) ∷ []) fm)
          (insert-IsSorted dev ((0, pv.pe_count) ∷ []) fm s))
  ]

  free_areas-IsSorted : (vg : Vg D) (fm : BTreeMap D Areas) → free_areas vg ≡ ok fm → IsSorted fm
  unfolding free_areas
  free_areas-IsSorted vg fm h =
      let (around, e, done) = bind-inv (around_used vg.pvs (used_areas vg) []) _ fm h in
      let same_map : add_unused vg.pvs around ≡ fm = cc in
      rw (sym same_map) (
        add_unused-IsSorted vg.pvs around
          (around_used-IsSorted vg.pvs (used_areas vg) [] around tt e))

  HavePvs-get :
      (pvs : BTreeMap D (Pv D)) (used : BTreeMap D Areas) (dev : D) (areas : Areas)
      → HavePvs pvs used
      → get dev used ≡ some areas
      → (pv : Pv D) × (get dev pvs ≡ some pv)
  unfolding get
  HavePvs-get pvs [] dev areas h g = cc
  HavePvs-get pvs ((d, a) ∷ used) dev areas ((pv, at), hs) g = elim (Bool-cases (o.eq dev d)) [
    | inl self ↦ (pv, rw ((o.eq_iff dev d).0 self) at)
    | inr other ↦ HavePvs-get pvs used dev areas hs (ground arith)
  ]

covers-Mem :
    (start len e : ℕ) (areas : Areas)
    → Memᴰ (start, len) areas
    → start ≤ e
    → e < start + len
    → covers areas e ≡ true
covers-Mem start len e [] there low high = elim there [ ]
covers-Mem start len e ((s, l) ∷ areas) there low high = elim there [
  | head at ↦
      let same_start : start ≡ s = ap (λ (x : ℕ × ℕ). x.0) at in
      let same_len : len ≡ l = ap (λ (x : ℕ × ℕ). x.1) at in ground arith
  | tail deeper ↦ let rest = covers-Mem start len e areas deeper low high in ground arith
]

covers-inside :
    (prev n : ℕ) (areas : List (ℕ × ℕ)) (e : ℕ)
    → IsLayout prev n areas
    → covers areas e ≡ true
    → e < n
covers-inside prev n [] e h c = cc
covers-inside prev n ((start, len) ∷ areas) e (_, _, h) c =
    let end = layout_le (start + len) n areas h in
    elim (Bool-cases (leb start e && ltb e (start + len))) [
      | inl here ↦ ground arith
      | inr later ↦ covers-inside (start + len) n areas e h (ground arith)
    ]

get-none : (first l : ℕ) → get first (or_new none) ≢ some l
unfolding get
get-none first l h = cc

module _ {D : Type 0} ⦃o : Ord D⦄ where
  -- On every device that is used at all, of fewer than 2^64 extents, the entries of `used_areas` ascend,
  -- do not overlap, are not empty and leave some extent out; and areas of logical volumes that start at
  -- the same extent of a device have the same length.
  pub record IsLaidOut (vg : Vg D) : Type 0 where
    pub layout :
        (dev : D) (pv : Pv D) (areas : Areas)
        → get dev vg.pvs ≡ some pv
        → get dev (used_areas vg) ≡ some areas
        → IsLayout 0 pv.pe_count areas
          × (pv.pe_count < two64)
          × ((unused : ℕ) × (unused < pv.pe_count) × (covers areas unused ≡ false))
    pub one_length :
        (dev : D) (first l k : ℕ) → IsUsed vg dev first l → IsUsed vg dev first k → l ≡ k

  -- An extent of a logical volume is in no free area.
  free-not_used :
      (vg : Vg D) (free : BTreeMap D Areas) (dev : D) (start len first l e : ℕ)
      → HavePvs vg.pvs (used_areas vg)
      → IsLaidOut vg
      → free_areas vg ≡ ok free
      → IsArea free dev start len
      → IsUsed vg dev first l
      → start ≤ e
      → e < start + len
      → first ≤ e
      → ¬ (e < first + l)
  free-not_used vg free dev start len first l e h laid searched (areas2, on_dev, at) used low high
        low2 high2 =
      let noted =
        used_areas-noted vg dev first l (λ k other. laid.one_length dev first k l other used)
          used in
      elim (Option-cases (get dev (used_areas vg))) [
        | inl never ↦
            let nothing : get first (or_new none) ≡ some l = rw never at noted in
            absurd (get-none first l nothing)
        | inr (areas, there) ↦
            let (pv, of_dev) = HavePvs-get vg.pvs (used_areas vg) dev areas h there in
            let (layout, small, (unused, below, left)) = laid.layout dev pv areas of_dev there in
            let covered = covers-get first l e areas (rw there at noted) low2 high2 in
            let inside = covers-inside 0 pv.pe_count areas e layout covered in
            let (fm, free2, done, found, not_free) =
              free_areas-disjoint vg dev pv areas unused first l e h of_dev there layout small below
                left (laid.one_length dev) used low2 high2 inside in
            let same_map : fm ≡ free = cc in
            let found2 = get-Mem dev areas2 free (free_areas-IsSorted vg free searched) on_dev in
            let found3 : get dev free ≡ some free2 = rw same_map at found in
            let same_areas : areas2 ≡ free2 = cc in
            let is_free = covers-Mem start len e areas2 at low high in
            let is_free2 : covers free2 e ≡ true = rw same_areas at is_free in cc
      ]

  -- If the group is consistent and laid out as above, and `lv_create_linear` succeeds, then the new
  -- volume's `n` extents, on one device, are in no area of a logical volume that the group had.
  pub lv_create_linear-disjoint :
      (s : System D) (name : Bytes) (n : ℕ) (vg vg2 : Vg D) (devices devices2 : Devices)
      → IsConsistent vg
      → IsLaidOut vg
      → lv_create_linear s name n vg devices ≡ ok (vg2, devices2)
      → (dev : D) × (start : ℕ) × (id : Bytes) × (get name vg2.lvs
          ≡ some (new_lv s name id (linear_segment dev start n)))
        × ((first l e : ℕ)
            → IsUsed vg dev first l
            → start ≤ e
            → e < start + n
            → first ≤ e
            → ¬ (e < first + l))
  lv_create_linear-disjoint s name n vg vg2 devices devices2 h laid done =
      let (free, dev, start, len, id, searched, area, fits, _, made, _, _, _) =
        lv_create_linear-get s name n vg vg2 devices devices2 done in
      (
        dev,
        start,
        id,
        made,
        λ first l e used low high.
            free-not_used vg free dev start len first l e (used_areas-HavePvs vg h) laid searched
              area used low (omega arith),
      )
