-- ===== src/PvLabel/Scan.antt =====
-- What `pvheader_scan` of src/pvlabel.rs finds.
use melvin.Prelude.{
  ℕ, ◌≡◌, refl, sym, ap, ◌∙◌, Bool, true, false, if◌then◌else◌, List, [], ◌∷◌, ◌++◌, Option, none,
  some, Bytes, Result, ok, err, panicked, out_of_fuel, unwrap, bind-inv, ◌⊎◌, inl, inr,
}
use mathlib.Core.Path.{subst}
use mathlib.Core.List.{Memᴰ}
use mathlib.Core.List.Memᴰ.{head, tail}
use melvin.Crates.{Crates}
use melvin.Disk.{Devices}
use melvin.PvLabel.Header.{PvHeader, find_in_dev, is_block, is_ok, labelled, pvheader_scan}

unwrap-inv : {A : Type 0} (o : Option A) (a : A) → unwrap o ≡ ok a → o ≡ some a
unwrap-inv none a h = cc
unwrap-inv (some x) a h = cc

is_ok-inv : (r : Result PvHeader) → is_ok r ≡ ok true → (pvh : PvHeader) × (r ≡ ok pvh)
is_ok-inv (ok pvh) h = (pvh, refl)
is_ok-inv (err e) h = cc
is_ok-inv panicked h = cc
is_ok-inv out_of_fuel h = cc

block-inv :
    (b : Bool) (r : Result PvHeader)
    → (if b then is_ok r else ok false) ≡ ok true
    → (b ≡ true) × ((pvh : PvHeader) × (r ≡ ok pvh))
block-inv true r h = (refl, is_ok-inv r h)
block-inv false r h = cc

module _ {A : Type 0} where
  Mem-append_left : (x : A) (xs ys : List A) → Memᴰ x xs → Memᴰ x (xs ++ ys)
  Mem-append_left x [] ys m = elim m [ ]
  Mem-append_left x (y ∷ xs) ys m = elim m [
    | head at ↦ head at
    | tail there ↦ tail (Mem-append_left x xs ys there)
  ]

  Mem-append_right : (x : A) (xs ys : List A) → Memᴰ x ys → Memᴰ x (xs ++ ys)
  Mem-append_right x [] ys m = m
  Mem-append_right x (y ∷ xs) ys m = tail (Mem-append_right x xs ys m)

  Mem-append-inv : (x : A) (xs ys : List A) → Memᴰ x (xs ++ ys) → Memᴰ x xs ⊎ Memᴰ x ys
  Mem-append-inv x [] ys m = inr m
  Mem-append-inv x (y ∷ xs) ys m = elim m [
    | head at ↦ inl (head at)
    | tail there ↦ elim (Mem-append-inv x xs ys there) [
      | inl left ↦ inl (tail left)
      | inr right ↦ inr right
    ]
  ]

module _ (c : Crates) (stat : Bytes → Option ℕ) (devices : Devices) where
  -- A block device on which a header is found.
  abbrev pub IsLabelled : Bytes → Type 0
  IsLabelled path =
      (mode : ℕ) × (stat path ≡ some mode)
      × (is_block mode ≡ true)
      × ((pvh : PvHeader) × (find_in_dev c path devices ≡ ok pvh))

  kept_by :
      (b : Bool) (path p : Bytes) (rest found : List Bytes)
      → ◌≡◌ {A = Result (List Bytes)} (ok (if b then path ∷ rest else rest)) (ok found)
      → Memᴰ p found
      → ((b ≡ true) × (p ≡ path)) ⊎ Memᴰ p rest
  kept_by true path p rest found h m =
      let same_found : found ≡ path ∷ rest = cc in
      elim (subst (Memᴰ p) same_found m) [ head at ↦ inl (refl, at) | tail there ↦ inr there ]
  kept_by false path p rest found h m =
      let same_found : found ≡ rest = cc in inr (subst (Memᴰ p) same_found m)

  labelled_sound :
      (paths found : List Bytes) (p : Bytes)
      → labelled c stat devices paths ≡ ok found
      → Memᴰ p found
      → Memᴰ p paths × IsLabelled p
  unfolding labelled
  labelled_sound [] found p h m =
      let same_found : found ≡ [] = cc in elim (subst (Memᴰ p) same_found m) [ ]
  labelled_sound (path ∷ paths) found p h m =
      let (mode, e1, h1) = bind-inv (unwrap (stat path)) _ found h in
      let (b, e2, h2) =
        bind-inv (if is_block mode then is_ok (find_in_dev c path devices) else ok false) _ found
          h1 in
      let (rest, e3, h3) = bind-inv (labelled c stat devices paths) _ found h2 in
      elim (kept_by b path p rest found h3 m) [
        | inl (kept, same_path) ↦
            let (block, (pvh, header)) =
              block-inv (is_block mode) (find_in_dev c path devices) (e2 ∙ ap ok kept) in
            (
              head same_path,
              subst IsLabelled (sym same_path)
                  (mode, unwrap-inv (stat path) mode e1, block, (pvh, header)),
            )
        | inr there ↦ let (member, is) = labelled_sound paths rest p e3 there in (tail member, is)
      ]

  kept_when :
      (b : Bool) (path p : Bytes) (rest found : List Bytes)
      → ◌≡◌ {A = Result (List Bytes)} (ok (if b then path ∷ rest else rest)) (ok found)
      → ((b ≡ true) × (p ≡ path)) ⊎ Memᴰ p rest
      → Memᴰ p found
  kept_when true path p rest found h (inl (_, at)) =
      let same_found : path ∷ rest ≡ found = cc in subst (Memᴰ p) same_found (head at)
  kept_when true path p rest found h (inr there) =
      let same_found : path ∷ rest ≡ found = cc in subst (Memᴰ p) same_found (tail there)
  kept_when false path p rest found h (inl (never, _)) = cc
  kept_when false path p rest found h (inr there) =
      let same_found : rest ≡ found = cc in subst (Memᴰ p) same_found there

  tested :
      (path : Bytes) (mode : ℕ) (b : Bool)
      → unwrap (stat path) ≡ ok mode
      → (if is_block mode then is_ok (find_in_dev c path devices) else ok false) ≡ ok b
      → IsLabelled path
      → b ≡ true
  tested path mode b e1 e2 (m, at, block, (pvh, header)) =
      let stated : unwrap (stat path) ≡ ok m = rw at refl in
      let same_mode : m ≡ mode = cc in
      let is : is_block mode ≡ true = rw (sym same_mode) block in
      let yes : (if is_block mode then is_ok (find_in_dev c path devices) else ok false) ≡ ok true =
        rw (is, header) refl in
      cc

  labelled_complete :
      (paths found : List Bytes) (p : Bytes)
      → labelled c stat devices paths ≡ ok found
      → Memᴰ p paths
      → IsLabelled p
      → Memᴰ p found
  unfolding labelled
  labelled_complete [] found p h m is = elim m [ ]
  labelled_complete (path ∷ paths) found p h m is =
      let (mode, e1, h1) = bind-inv (unwrap (stat path)) _ found h in
      let (b, e2, h2) =
        bind-inv (if is_block mode then is_ok (find_in_dev c path devices) else ok false) _ found
          h1 in
      let (rest, e3, h3) = bind-inv (labelled c stat devices paths) _ found h2 in
      elim m [
        | head at ↦
            kept_when b path p rest found h3
              (inl (tested path mode b e1 e2 (subst IsLabelled at is), at))
        | tail there ↦
            kept_when b path p rest found h3 (inr (labelled_complete paths rest p e3 there is))
      ]

  module _ (read_dir : Bytes → Result (List Bytes)) where
    -- Every path that the scan of directories returns is in one of them, and is a block device on which a header is found.
    pub pvheader_scan_sound :
        (dirs found : List Bytes) (p : Bytes)
        → pvheader_scan c read_dir stat devices dirs ≡ ok found
        → Memᴰ p found
        → ((dir : Bytes) × (paths : List Bytes) × Memᴰ dir dirs
            × (read_dir dir ≡ ok paths)
            × Memᴰ p paths)
          × IsLabelled p
    unfolding pvheader_scan
    pvheader_scan_sound [] found p h m =
        let same_found : found ≡ [] = cc in elim (subst (Memᴰ p) same_found m) [ ]
    pvheader_scan_sound (dir ∷ dirs) found p h m =
        let (paths, e1, h1) = bind-inv (read_dir dir) _ found h in
        let (here, e2, h2) = bind-inv (labelled c stat devices paths) _ found h1 in
        let (rest, e3, h3) = bind-inv (pvheader_scan c read_dir stat devices dirs) _ found h2 in
        let same_found : found ≡ here ++ rest = cc in
        elim (Mem-append-inv p here rest (subst (Memᴰ p) same_found m)) [
          | inl left ↦
              let (member, is) = labelled_sound paths here p e2 left in
              ((dir, paths, head refl, e1, member), is)
          | inr right ↦
              let ((d, ps, dm, e, member), is) = pvheader_scan_sound dirs rest p e3 right in
              ((d, ps, tail dm, e, member), is)
        ]

    -- If the scan of directories returns, then every path in one of them that is a block device on which a header is found is in what it
    -- returns.
    pub pvheader_scan_complete :
        (dirs found : List Bytes) (dir : Bytes) (paths : List Bytes) (p : Bytes)
        → pvheader_scan c read_dir stat devices dirs ≡ ok found
        → Memᴰ dir dirs
        → read_dir dir ≡ ok paths
        → Memᴰ p paths
        → IsLabelled p
        → Memᴰ p found
    unfolding pvheader_scan
    pvheader_scan_complete [] found dir paths p h dm listed m is = elim dm [ ]
    pvheader_scan_complete (d ∷ dirs) found dir paths p h dm listed m is =
        let (ps, e1, h1) = bind-inv (read_dir d) _ found h in
        let (here, e2, h2) = bind-inv (labelled c stat devices ps) _ found h1 in
        let (rest, e3, h3) = bind-inv (pvheader_scan c read_dir stat devices dirs) _ found h2 in
        let same_found : here ++ rest ≡ found = cc in
        subst (Memᴰ p) same_found (elim dm [
          | head at ↦
              let listed_too : read_dir d ≡ ok paths = rw (sym at) listed in
              let same_paths : paths ≡ ps = cc in
              Mem-append_left p here rest
                (labelled_complete ps here p e2 (subst (Memᴰ p) same_paths m) is)
          | tail there ↦
              Mem-append_right p here rest
                (pvheader_scan_complete dirs rest dir paths p e3 there listed m is)
        ])
