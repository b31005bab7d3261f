-- ===== src/Vg/Params/Located.antt =====
-- What `dm_params` of src/lv.rs returns for striped segments.
use melvin.Prelude.{
  ℕ, ◌+◌, ◌*◌, ◌-◌, ◌%◌, ◌≤◌, ◌<◌, ◌≡◌, ◌⊎◌, refl, sym, ap, ◌∙◌, true, List, [], ◌∷◌, ◌++◌, some,
  Bytes, bytes, length, format_u64, two64, ok, arith, bind-inv, inl, inr,
}
use mathlib.Core.List.{Memᴰ}
use mathlib.Core.List.Memᴰ.{head, tail}
use melvin.BTree.{Ord, bytes_ord, get, contains_key}
use melvin.Types.{Pv, Lv, Vg, Segment, StripedSegment, striped}
use melvin.Parser.Printer.{join}
use melvin.Lv.Segments.{pv_dependencies, devices_of}
use melvin.Vg.Physical.{any_device, any_segment}
use melvin.Vg.Consistent.{IsConsistent, standing-get}
use melvin.Vg.Total.{contains_key-found}
use melvin.Vg.Params.{device_at, stripe_param, stripe_params, striped_params, dm_params}

-- Areas in extents are areas in sectors.
extents_inside :
    (start count n extent_size pe_start size : ℕ)
    → start + count ≤ n
    → pe_start + n * extent_size ≤ size
    → start * extent_size + pe_start + count * extent_size ≤ size
extents_inside start count n e pe_start size h k =
    let rest : n ≡ start + count + (n - (start + count)) = omega arith in
    let product : n * e ≡ start * e + count * e + (n - (start + count)) * e =
      ap (λ x. x * e) rest ∙ grind arith in
    omega arith

module _ {D : Type 0} (major minor : D → ℕ) ⦃o : Ord D⦄ where
  any_segment-Mem :
      (e : D) (s : Segment D) (segs : List (Segment D))
      → Memᴰ s segs
      → any_device e (pv_dependencies s) ≡ true
      → any_segment e segs ≡ true
  any_segment-Mem e s [] m h = elim m [ ]
  any_segment-Mem e s (x ∷ segs) m h = elim m [
    | head at ↦ rw (sym at, h) refl
    | tail there ↦ let later = any_segment-Mem e s segs there h in ground arith
  ]

  stripe_params-total :
      (vg : Vg D) (stripes : List (D × ℕ))
      → ((e : D) → any_device e (devices_of stripes) ≡ true → contains_key e vg.pvs ≡ true)
      → (xs : List Bytes) × (stripe_params major minor vg stripes ≡ ok xs)
  unfolding stripe_params stripe_param
  stripe_params-total vg [] h = ([], refl)
  stripe_params-total vg ((dev, ext) ∷ stripes) h =
      let self : o.eq dev dev ≡ true = (o.eq_iff dev dev).1 refl in
      let (pv, at) = contains_key-found dev vg.pvs (h dev (rw self refl)) in
      let (xs, e) = stripe_params-total vg stripes (λ d used. h d (ground arith)) in
      (
        device_at major minor dev ((ext * vg.extent_size % two64 + pv.pe_start) % two64) ∷ xs,
        rw (at, e) refl,
      )

  -- One stripe, or a stripe size.
  abbrev pub HasLayout : StripedSegment D → Type 0
  HasLayout s = (length s.stripes ≡ 1) ⊎ ((n : ℕ) × (s.stripe_size ≡ some n))

  many-total :
      (vg : Vg D) (s : StripedSegment D) (dev : D) (ext : ℕ) (stripe : D × ℕ)
      (stripes : List (D × ℕ)) (xs : List Bytes) (n : ℕ)
      → stripe_params major minor vg ((dev, ext) ∷ stripe ∷ stripes) ≡ ok xs
      → s.stripe_size ≡ some n
      → (text : Bytes) × (striped_params major minor vg s ((dev, ext) ∷ stripe ∷ stripes) ≡ ok text)
  unfolding striped_params
  many-total vg s dev ext stripe stripes xs n h sized = (
    format_u64 (length ((dev, ext) ∷ stripe ∷ stripes))
        ++ (bytes " " ++ (format_u64 n ++ (bytes " " ++ join (bytes " ") xs))),
    rw (h, sized) refl,
  )

  striped_params-total :
      (vg : Vg D) (s : StripedSegment D) (stripes : List (D × ℕ)) (xs : List Bytes)
      → stripe_params major minor vg stripes ≡ ok xs
      → (length stripes ≡ 1) ⊎ ((n : ℕ) × (s.stripe_size ≡ some n))
      → (text : Bytes) × (striped_params major minor vg s stripes ≡ ok text)
  unfolding striped_params stripe_params
  striped_params-total vg s [] xs h (inl one) = absurd (omega arith)
  striped_params-total vg s [] xs h (inr (n, sized)) = (
    format_u64 0 ++ (bytes " " ++ (format_u64 n ++ (bytes " " ++ join (bytes " ") []))),
    rw sized refl,
  )
  striped_params-total vg s ((dev, ext) ∷ []) xs h layout =
      let (x, e, _) = bind-inv (stripe_param major minor vg dev ext) _ xs h in (x, e)
  striped_params-total vg s ((dev, ext) ∷ stripe ∷ stripes) xs h (inl one) = absurd (omega arith)
  striped_params-total vg s ((dev, ext) ∷ stripe ∷ stripes) xs h (inr (n, sized)) =
      many-total vg s dev ext stripe stripes xs n h sized

  -- If every device that a logical volume of the group uses is one of its physical volumes, a striped segment of a logical volume, with
  -- one stripe or with a stripe size, has its parameters with no panic.
  pub dm_params-IsConsistent :
      (vg : Vg D) (name : Bytes) (lv : Lv D) (s : StripedSegment D)
      → IsConsistent vg
      → get name vg.lvs ≡ some lv
      → Memᴰ (striped s) lv.segments
      → HasLayout s
      → (text : Bytes) × (dm_params major minor vg (striped s) ≡ ok text)
  unfolding dm_params pv_dependencies
  dm_params-IsConsistent vg name lv s k found there layout =
      let (xs, e) = stripe_params-total vg s.stripes (λ d used.
        standing-get vg.pvs vg.lvs k name lv found d
          (any_segment-Mem d (striped s) lv.segments there used)) in
      striped_params-total vg s s.stripes xs e layout

  -- If a segment of one stripe lies within the extents of its volume, and these end within the recorded size of its device, of fewer than
  -- 2^64 sectors, then its parameters name a sector of the device, not before the start of the extents, from which all its extents end
  -- within that size.
  pub dm_params-inside :
      (vg : Vg D) (dev : D) (pv : Pv D) (s : StripedSegment D) (start : ℕ)
      → get dev vg.pvs ≡ some pv
      → s.stripes ≡ (dev, start) ∷ []
      → start + s.extent_count ≤ pv.pe_count
      → pv.pe_start + pv.pe_count * vg.extent_size ≤ pv.dev_size
      → pv.dev_size < two64
      → (sector : ℕ) × (dm_params major minor vg (striped s)
          ≡ ok (device_at major minor dev sector))
        × (pv.pe_start ≤ sector)
        × (sector + s.extent_count * vg.extent_size ≤ pv.dev_size)
  unfolding dm_params striped_params stripe_param
  dm_params-inside vg dev pv s start found one within fits small =
      let inside =
        extents_inside start s.extent_count pv.pe_count vg.extent_size pv.pe_start pv.dev_size
          within fits in
      let sector : (start * vg.extent_size % two64 + pv.pe_start) % two64
          ≡ start * vg.extent_size + pv.pe_start =
        omega arith in
      (start * vg.extent_size + pv.pe_start, rw (one, found, sector) refl, omega arith, inside)
