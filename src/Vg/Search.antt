-- ===== src/Vg/Search.antt =====
-- The area that `lv_create_linear` of src/vg.rs chooses among the free ones.
use melvin.Prelude.{
  ℕ, ◌≤◌, ◌<◌, ◌≡◌, ◌⊎◌, refl, sym, ap, ◌∙◌, ltb, List, [], ◌∷◌, Option, none, some, arith,
  Bool-cases, inl, inr,
}
use mathlib.Core.List.{Memᴰ}
use mathlib.Core.List.Memᴰ.{head, tail}
use melvin.Vg.{Areas, first_fit, find_contig, at_device}

-- The inner loop finds an area that is long enough.
first_fit-some :
    (extent_size : ℕ) (areas : Areas) (start len : ℕ)
    → first_fit extent_size areas ≡ some (start, len)
    → (extent_size ≤ len) × Memᴰ (start, len) areas
unfolding first_fit
first_fit-some extent_size [] start len h = cc
first_fit-some extent_size ((s, l) ∷ areas) start len h = elim (Bool-cases (ltb l extent_size)) [
  | inl short ↦
      let found : first_fit extent_size areas ≡ some (start, len) = ground arith in
      let (fits, there) = first_fit-some extent_size areas start len found in (fits, tail there)
  | inr long ↦
      let here : ◌≡◌ {A = Option (ℕ × ℕ)} (some (s, l)) (some (start, len)) = ground arith in
      let at : ◌≡◌ {A = ℕ × ℕ} (start, len) (s, l) = cc in
      let same_len : l ≡ len = cc in (ground arith, head at)
]

-- It finds none only if all are too short.
first_fit-none :
    (extent_size : ℕ) (areas : Areas) (start len : ℕ)
    → first_fit extent_size areas ≡ none
    → Memᴰ (start, len) areas
    → len < extent_size
unfolding first_fit
first_fit-none extent_size [] start len h m = elim m [ ]
first_fit-none extent_size ((s, l) ∷ areas) start len h m = elim (Bool-cases (ltb l extent_size)) [
  | inl short ↦
      let later : first_fit extent_size areas ≡ none = ground arith in
      elim m [
        | head at ↦ let same_len : len ≡ l = ap (λ (x : ℕ × ℕ). x.1) at in ground arith
        | tail there ↦ first_fit-none extent_size areas start len later there
      ]
  | inr long ↦ let never : ◌≡◌ {A = Option (ℕ × ℕ)} (some (s, l)) none = ground arith in cc
]

module _ {D : Type 0} where
  -- An area that is an area of a device of the map.
  abbrev pub IsArea : List (D × Areas) → D → ℕ → ℕ → Type 0
  IsArea free dev start len = (areas : Areas) × (Memᴰ (dev, areas) free) × (Memᴰ (start, len) areas)

  search-found :
      (extent_size : ℕ) (free : List (D × Areas)) (found : Option (D × ℕ × ℕ)) (dev : D)
      (start len : ℕ)
      → find_contig extent_size free found ≡ some (dev, start, len)
      → (found ≡ some (dev, start, len)) ⊎ ((extent_size ≤ len) × IsArea free dev start len)
  unfolding find_contig
  search-found extent_size [] found dev start len h = inl h
  search-found extent_size ((d, areas) ∷ free) found dev start len h =
      elim (search-found extent_size free (at_device d (first_fit extent_size areas) found) dev
        start len h) [
          | inl now ↦ chosen (first_fit extent_size areas) refl now
          | inr (fits, (inside, there, at)) ↦ inr (fits, (inside, tail there, at))
        ]
    where
      chosen :
          (o : Option (ℕ × ℕ))
          → first_fit extent_size areas ≡ o
          → at_device d o found ≡ some (dev, start, len)
          → (found ≡ some (dev, start, len))
            ⊎ ((extent_size ≤ len) × IsArea ((d, areas) ∷ free) dev start len)
      chosen none e now = inl now
      chosen (some (s, l)) e now =
          let at : ◌≡◌ {A = ℕ × ℕ} (s, l) (start, len) = cc in
          let same_dev : dev ≡ d = cc in
          let pair : ◌≡◌ {A = D × Areas} (dev, areas) (d, areas) =
            ap (λ (x : D). (x, areas)) same_dev in
          let (fits, there) = first_fit-some extent_size areas start len (e ∙ ap some at) in
          inr (fits, (areas, head pair, there))

  -- A search among free areas that finds one finds an area of the map, long enough for the extents.
  pub find_contig-fits :
      (extent_size : ℕ) (free : List (D × Areas)) (dev : D) (start len : ℕ)
      → find_contig extent_size free none ≡ some (dev, start, len)
      → (extent_size ≤ len) × IsArea free dev start len
  find_contig-fits extent_size free dev start len h =
      elim (search-found extent_size free none dev start len h) [ inl never ↦ cc | inr fits ↦ fits ]

  search-none :
      (extent_size : ℕ) (free : List (D × Areas)) (found : Option (D × ℕ × ℕ)) (dev : D)
      (start len : ℕ)
      → find_contig extent_size free found ≡ none
      → (found ≡ none) × (IsArea free dev start len → len < extent_size)
  unfolding find_contig
  search-none extent_size [] found dev start len h = (h, λ (areas, there, at). elim there [ ])
  search-none extent_size ((d, areas) ∷ free) found dev start len h =
      let (after, later) =
        search-none extent_size free (at_device d (first_fit extent_size areas) found) dev start len
          h in
      passed_by (first_fit extent_size areas) refl after later
    where
      passed_by :
          (o : Option (ℕ × ℕ))
          → first_fit extent_size areas ≡ o
          → at_device d o found ≡ none
          → (IsArea free dev start len → len < extent_size)
          → (found ≡ none) × (IsArea ((d, areas) ∷ free) dev start len → len < extent_size)
      passed_by none e after later = (
        after,
        λ (inside, there, at). elim there [
          | head pair ↦
              let here : inside ≡ areas = ap (λ (x : D × Areas). x.1) pair in
              first_fit-none extent_size areas start len e (rw (sym here) at)
          | tail deeper ↦ later (inside, deeper, at)
        ],
      )
      passed_by (some x) e after later = cc

  -- A search among free areas that finds none has no area in the map that is long enough.
  pub find_contig-none :
      (extent_size : ℕ) (free : List (D × Areas)) (dev : D) (start len : ℕ)
      → find_contig extent_size free none ≡ none
      → IsArea free dev start len
      → len < extent_size
  find_contig-none extent_size free dev start len h =
      (search-none extent_size free none dev start len h).1
