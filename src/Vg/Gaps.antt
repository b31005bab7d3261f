-- ===== src/Vg/Gaps.antt =====
-- The gaps between the used areas of a device, and the fold of `free_areas` of src/vg.rs that finds them.
use melvin.Prelude.{
  ℕ, ◌+◌, ◌-◌, ◌%◌, ◌<◌, ◌≤◌, ◌≡◌, refl, ap, ◌∙◌, ltb, leb, ◌==◌, Bool, false, not, ◌&&◌, ◌||◌,
  List, [], ◌∷◌, ◌++◌, Option, some, two64, if◌then◌else◌, arith, Bool-cases, inl, inr,
  append_assoc,
}
use melvin.BTree.{Ord, BTreeMap, insert, get}
use melvin.BTree.Laws.{get-insert}
use melvin.Vg.{Areas, nat_ord, or_new, add_area, fold_areas}

-- Extent `e` lies in an area.
abbrev pub covers : List (ℕ × ℕ) → ℕ → Bool
covers [] e = false
covers ((start, len) ∷ areas) e = (leb start e && ltb e (start + len)) || covers areas e

-- Areas in ascending order from `prev` on, none empty and none beyond extent `n`.
abbrev pub IsLayout : ℕ → ℕ → List (ℕ × ℕ) → Type 0
IsLayout prev n [] = prev ≤ n
IsLayout prev n ((start, len) ∷ areas) = (prev ≤ start) × (0 < len) × IsLayout (start + len) n areas

-- What lies between the areas, up to extent `n`.
abbrev pub gaps : ℕ → ℕ → List (ℕ × ℕ) → List (ℕ × ℕ)
gaps prev n [] = if ltb prev n then (prev, n - prev) ∷ [] else []
gaps prev n ((start, len) ∷ areas) =
    let rest = gaps (start + len) n areas in
    if ltb prev start then (prev, start - prev) ∷ rest else rest

pub covers-before :
    (prev n : ℕ) (areas : List (ℕ × ℕ)) (e : ℕ)
    → IsLayout prev n areas
    → e < prev
    → covers areas e ≡ false
covers-before prev n [] e h p = refl
covers-before prev n ((start, len) ∷ areas) e (h, _, hs) p =
    ground (arith, covers-before (start + len) n areas e hs (omega arith))

gaps-before :
    (prev n : ℕ) (areas : List (ℕ × ℕ)) (e : ℕ)
    → IsLayout prev n areas
    → e < prev
    → covers (gaps prev n areas) e ≡ false
gaps-before prev n [] e h p = ground arith
gaps-before prev n ((start, len) ∷ areas) e (h, _, hs) p =
    ground (arith, gaps-before (start + len) n areas e hs (omega arith))

-- The gaps and the areas share no extent and leave none out.
pub gaps-complement :
    (prev n : ℕ) (areas : List (ℕ × ℕ)) (e : ℕ)
    → IsLayout prev n areas
    → prev ≤ e
    → e < n
    → covers (gaps prev n areas) e ≡ not (covers areas e)
gaps-complement prev n [] e h p q = ground arith
gaps-complement prev n ((start, len) ∷ areas) e (h, some_len, hs) p q = ground (
  arith,
  covers-before (start + len) n areas e hs,
  gaps-before (start + len) n areas e hs,
  gaps-complement (start + len) n areas e hs,
)

pub layout_le : (prev n : ℕ) (areas : List (ℕ × ℕ)) → IsLayout prev n areas → prev ≤ n
layout_le prev n [] h = h
layout_le prev n ((start, len) ∷ areas) (h, _, hs) =
    omega (arith, layout_le (start + len) n areas hs)

-- The end of the volume, put into the map as an area with no extents, stands behind all others.
pub insert_end :
    (prev n : ℕ) (areas : Areas) → IsLayout prev n areas → insert n 0 areas ≡ areas ++ (n, 0) ∷ []
unfolding insert
insert_end prev n [] h = refl
insert_end prev n ((start, len) ∷ areas) (h, some_len, hs) =
    let le = layout_le (start + len) n areas hs in
    let e1 : ltb n start ≡ false = ground arith in
    let e2 : (n == start) ≡ false = ground arith in
    rw (e1, e2) (ap (◌∷◌ (start, len)) (insert_end (start + len) n areas hs))

-- The last key is before `k`.
abbrev EndsBefore : ℕ → Areas → Type 0
EndsBefore k [] = Unit
EndsBefore k ((start, len) ∷ areas) = (start < k) × EndsBefore k areas

insert_behind : (k v : ℕ) (m : Areas) → EndsBefore k m → insert k v m ≡ m ++ (k, v) ∷ []
unfolding insert
insert_behind k v [] h = refl
insert_behind k v ((start, len) ∷ m) (h, hs) =
    let e1 : ltb k start ≡ false = ground arith in
    let e2 : (k == start) ≡ false = ground arith in
    rw (e1, e2) (ap (◌∷◌ (start, len)) (insert_behind k v m hs))

EndsBefore-mono : (j k v : ℕ) (m : Areas) → EndsBefore j m → j < k → EndsBefore k (m ++ (j, v) ∷ [])
EndsBefore-mono j k v [] h p = (p, tt)
EndsBefore-mono j k v ((start, len) ∷ m) (h, hs) p = (omega arith, EndsBefore-mono j k v m hs p)

EndsBefore-le : (j k : ℕ) (m : Areas) → EndsBefore j m → j ≤ k → EndsBefore k m
EndsBefore-le j k [] h p = tt
EndsBefore-le j k ((start, len) ∷ m) (h, hs) p = (omega arith, EndsBefore-le j k m hs p)

-- The map of a device behind the fold: untouched if the device has no gap.
abbrev pub found_gaps : Option Areas → List (ℕ × ℕ) → Option Areas
found_gaps old [] = old
found_gaps old (g ∷ gs) = some (or_new old ++ (g ∷ gs))

found_gaps-cons :
    (old : Areas) (g : ℕ × ℕ) (gs : List (ℕ × ℕ))
    → found_gaps (some (old ++ g ∷ [])) gs ≡ some (old ++ (g ∷ gs))
found_gaps-cons old g [] = refl
found_gaps-cons old g (x ∷ gs) = ap some (append_assoc old (g ∷ []) (x ∷ gs))

module _ {D : Type 0} ⦃o : Ord D⦄ where
  get-add_area_self :
      (dev : D) (start len : ℕ) (m : BTreeMap D Areas)
      → get dev (add_area dev start len m) ≡ some (insert start len (or_new (get dev m)))
  unfolding add_area
  get-add_area_self dev start len m =
      get-insert dev dev (insert start len (or_new (get dev m))) m ∙ rw ((o.eq_iff dev dev).1 refl)

  get-add_area_ne :
      (d dev : D) (start len : ℕ) (m : BTreeMap D Areas)
      → o.eq d dev ≡ false
      → get d (add_area dev start len m) ≡ get d m
  unfolding add_area
  get-add_area_ne d dev start len m e =
      get-insert d dev (insert start len (or_new (get dev m))) m ∙ rw e

  -- The fold over the areas of one device leaves the others alone.
  pub get-fold_areas_ne :
      (d dev : D) (prev : ℕ) (areas : Areas) (fm : BTreeMap D Areas)
      → o.eq d dev ≡ false
      → get d (fold_areas dev prev areas fm) ≡ get d fm
  unfolding fold_areas
  get-fold_areas_ne d dev prev [] fm e = refl
  get-fold_areas_ne d dev prev ((start, len) ∷ areas) fm e = elim (Bool-cases (ltb prev start)) [
    | inl gap ↦ rw gap (
        get-fold_areas_ne d dev ((start + len) % two64) areas (add_area dev prev (start - prev) fm)
          e
        ∙ get-add_area_ne d dev prev (start - prev) fm e)
    | inr next ↦ rw next (get-fold_areas_ne d dev ((start + len) % two64) areas fm e)
  ]

  get-add_gap :
      (dev : D) (prev len : ℕ) (fm : BTreeMap D Areas)
      → EndsBefore prev (or_new (get dev fm))
      → get dev (add_area dev prev len fm) ≡ some (or_new (get dev fm) ++ (prev, len) ∷ [])
  get-add_gap dev prev len fm k =
      get-add_area_self dev prev len fm ∙ ap some (insert_behind prev len (or_new (get dev fm)) k)

  fold_areas-cons :
      (dev : D) (prev start len : ℕ) (rest : Areas) (fm : BTreeMap D Areas)
      → (start + len) % two64 ≡ start + len
      → fold_areas dev prev ((start, len) ∷ rest) fm
        ≡ fold_areas dev
            (start + len)
            rest
            (if ltb prev start then add_area dev prev (start - prev) fm else fm)
  unfolding fold_areas
  fold_areas-cons dev prev start len rest fm no_wrap =
      ap
        (λ e.
          fold_areas dev e rest
            (if ltb prev start then add_area dev prev (start - prev) fm else fm))
        no_wrap

  fold_areas-end :
      (dev : D) (prev n : ℕ) (fm : BTreeMap D Areas)
      → fold_areas dev prev ((n, 0) ∷ []) fm
        ≡ (if ltb prev n then add_area dev prev (n - prev) fm else fm)
  unfolding fold_areas
  fold_areas-end dev prev n fm = refl

  -- The fold puts exactly the gaps into the map of the device.
  pub get-fold_areas :
      (dev : D) (prev n : ℕ) (areas : Areas) (fm : BTreeMap D Areas)
      → IsLayout prev n areas
      → n < two64
      → EndsBefore prev (or_new (get dev fm))
      → get dev (fold_areas dev prev (areas ++ (n, 0) ∷ []) fm)
        ≡ found_gaps (get dev fm) (gaps prev n areas)
  get-fold_areas dev prev n [] fm h b k = elim (Bool-cases (ltb prev n)) [
    | inl gap ↦ rw (fold_areas-end dev prev n fm, gap) (get-add_gap dev prev (n - prev) fm k)
    | inr full ↦ rw (fold_areas-end dev prev n fm, full)
  ]
  get-fold_areas dev prev n ((start, len) ∷ areas) fm (h, some_len, hs) b k =
      let le = layout_le (start + len) n areas hs in
      let no_wrap : (start + len) % two64 ≡ start + len = omega arith in
      elim (Bool-cases (ltb prev start)) [
        | inl gap ↦
            let added = get-add_gap dev prev (start - prev) fm k in
            let lt : prev < start + len = omega arith in
            let behind_gap =
              EndsBefore-mono prev (start + len) (start - prev) (or_new (get dev fm)) k lt in
            rw (fold_areas-cons dev prev start len (areas ++ (n, 0) ∷ []) fm no_wrap, gap)
              (get-fold_areas dev (start + len) n areas (add_area dev prev (start - prev) fm) hs b
                  (rw added behind_gap)
                ∙ rw added (
                    found_gaps-cons (or_new (get dev fm)) (prev, start - prev)
                      (gaps (start + len) n areas)))
        | inr next ↦
            rw (fold_areas-cons dev prev start len (areas ++ (n, 0) ∷ []) fm no_wrap, next)
              (get-fold_areas dev (start + len) n areas fm hs b
                (EndsBefore-le prev (start + len) (or_new (get dev fm)) k (omega arith)))
      ]
