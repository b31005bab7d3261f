-- ===== src/Vg/RoundTrip/Volumes.antt =====
-- The section of the logical volumes of src/vg.rs, written and read again.
use melvin.Prelude.{
  ℕ, ◌<◌, ◌≡◌, refl, sym, ap, ◌∙◌, true, List, [], ◌∷◌, none, Bytes, two64, two63, length, arith,
  ok,
}
use melvin.BTree
use melvin.BTree.{Ord, BTreeMap, bytes_ord, values, collect}
use melvin.BTree.Laws.{IsAfter, IsSorted}
use melvin.BTree.Collect.{collect-IsSorted}
use melvin.Types.{Pv, Lv, Segment, striped, thinpool, thin}
use melvin.Parser.TextMap.{TextMap, empty}
use melvin.Lv
use melvin.Lv.Reload.{IsLinked, AreLinked, IsStorable}
use melvin.Lv.RoundTrip.{AreStorable, reload_all, lv_round_trip}
use melvin.Lv.Segments.{pv_dependencies, devices_of}
use melvin.Vg.Text.{store_lvs, load_lvs}
use melvin.Vg.Physical.{any_device, any_segment, in_use}
use melvin.Vg.RoundTrip.Sections.{sections, insert-sections}

module _ {D : Type 0} where
  abbrev StripesFit : List (D × ℕ) → Type 0
  StripesFit [] = Unit
  StripesFit ((dev, ext) ∷ stripes) = (ext < two64) × StripesFit stripes

  -- The numbers of a segment fit `u64`.
  abbrev pub SegmentFits : Segment D → Type 0
  SegmentFits (striped s) =
      (s.start_extent < two64) × (s.extent_count < two64) × StripesFit s.stripes
  SegmentFits (thinpool s) =
      (s.start_extent < two64)
      × (s.extent_count < two64)
      × (s.transaction_id < two64)
      × (s.chunk_size < two64)
  SegmentFits (thin s) =
      (s.start_extent < two64)
      × (s.extent_count < two64)
      × (s.transaction_id < two64)
      × (s.device_id < two64)

  abbrev pub SegmentsFit : List (Segment D) → Type 0
  SegmentsFit [] = Unit
  SegmentsFit (s ∷ ss) = SegmentFits s × SegmentsFit ss

  -- Each logical volume stands under its name, and its numbers fit.
  abbrev pub VolumesFit : BTreeMap Bytes (Lv D) → Type 0
  VolumesFit [] = Unit
  VolumesFit ((k, lv) ∷ lvs) =
      (lv.name ≡ k) × (length lv.segments < two63) × SegmentsFit lv.segments × VolumesFit lvs

  -- What `lv_round_trip` keeps of a logical volume.
  abbrev pub reload_lv : Lv D → Lv D
  reload_lv lv = record lv { segments = reload_all lv.segments; device = none }

  abbrev pub reload_lvs : BTreeMap Bytes (Lv D) → BTreeMap Bytes (Lv D)
  reload_lvs [] = []
  reload_lvs ((k, lv) ∷ lvs) = (k, reload_lv lv) ∷ reload_lvs lvs

  reload_lvs-IsAfter :
      (k : Bytes) (lvs : BTreeMap Bytes (Lv D)) → IsAfter k lvs → IsAfter k (reload_lvs lvs)
  reload_lvs-IsAfter k [] a = tt
  reload_lvs-IsAfter k ((j, lv) ∷ lvs) (a, behind) = (a, reload_lvs-IsAfter k lvs behind)

  pub reload_lvs-IsSorted : (lvs : BTreeMap Bytes (Lv D)) → IsSorted lvs → IsSorted (reload_lvs lvs)
  reload_lvs-IsSorted [] s = tt
  reload_lvs-IsSorted ((k, lv) ∷ lvs) (a, s) =
      (reload_lvs-IsAfter k lvs a, reload_lvs-IsSorted lvs s)

module _ {D : Type 0} ⦃o : Ord D⦄ (idxs : BTreeMap D ℕ) (names : BTreeMap Bytes (Pv D)) where
  linked-stripes :
      (stripes : List (D × ℕ))
      → StripesFit stripes
      → ((e : D) → any_device e (devices_of stripes) ≡ true → IsLinked idxs names e)
      → AreLinked idxs names stripes
  linked-stripes [] f h = tt
  linked-stripes ((dev, ext) ∷ stripes) (f, fs) h =
      let self : o.eq dev dev ≡ true = (o.eq_iff dev dev).1 refl in
      (f, h dev (rw self refl), linked-stripes stripes fs (λ e used. h e (ground arith)))

  segment-IsStorable :
      (s : Segment D)
      → SegmentFits s
      → ((e : D) → any_device e (pv_dependencies s) ≡ true → IsLinked idxs names e)
      → IsStorable idxs names s
  unfolding pv_dependencies
  segment-IsStorable (striped s) (f1, f2, fs) h = (f1, f2, linked-stripes s.stripes fs h)
  segment-IsStorable (thinpool s) f h = f
  segment-IsStorable (thin s) f h = f

  segments-AreStorable :
      (ss : List (Segment D))
      → SegmentsFit ss
      → ((e : D) → any_segment e ss ≡ true → IsLinked idxs names e)
      → AreStorable idxs names ss
  segments-AreStorable [] f h = tt
  segments-AreStorable (s ∷ ss) (f, fs) h = (
    segment-IsStorable s f (λ e used. h e (rw used refl)),
    segments-AreStorable ss fs (λ e used. h e (ground arith)),
  )

  -- The texts of the logical volumes: what is stored is read as `reload_lvs` says.
  pub record Texts (lvs : BTreeMap Bytes (Lv D)) : Type 0 where
    pub texts : BTreeMap Bytes TextMap
    pub stores :
        (m : BTreeMap Bytes TextMap)
        → store_lvs idxs lvs (sections m) ≡ ok (sections (collect texts m))
    pub loads :
        (acc : BTreeMap Bytes (Lv D))
        → load_lvs names (sections texts) acc ≡ ok (collect (reload_lvs lvs) acc)
    pub after : (k : Bytes) → IsAfter k lvs → IsAfter k texts
    pub sorted : IsSorted lvs → IsSorted texts

  pub volumes-Texts :
      (lvs : BTreeMap Bytes (Lv D))
      → VolumesFit lvs
      → ((e : D) → in_use e (values lvs) ≡ true → IsLinked idxs names e)
      → Texts lvs
  unfolding store_lvs load_lvs collect
  volumes-Texts [] f h = record {
    texts = [];
    stores = λ m. refl;
    loads = λ acc. refl;
    after = λ k a. tt;
    sorted = λ s. tt;
  }
  volumes-Texts ((k, lv) ∷ lvs) (named_k, few, f, fs) h =
      let (t, e, g) =
        lv_round_trip idxs names lv
          (segments-AreStorable lv.segments f (λ d used. h d (rw used refl))) few in
      let loaded : Lv.from_textmap k t names ≡ ok (reload_lv lv) =
        ap (λ n. Lv.from_textmap n t names) (sym named_k) ∙ g in
      let rest = volumes-Texts lvs fs (λ d used. h d (ground arith)) in
      record {
        texts = (k, t) ∷ rest.texts;
        stores = λ m. rw (e, insert-sections k t m) (rest.stores (BTree.insert k t m));
        loads = λ acc. rw loaded (rest.loads (BTree.insert k (reload_lv lv) acc));
        after = λ j (a, behind). (a, rest.after j behind);
        sorted = λ (a, s). (rest.after k a, rest.sorted s);
      }

  -- The section of the logical volumes in a group with their names in order.
  pub load-store_lvs :
      (lvs : BTreeMap Bytes (Lv D))
      → VolumesFit lvs
      → IsSorted lvs
      → ((e : D) → in_use e (values lvs) ≡ true → IsLinked idxs names e)
      → (tm : TextMap) × (store_lvs idxs lvs empty ≡ ok tm)
        × (load_lvs names tm [] ≡ ok (reload_lvs lvs))
  load-store_lvs lvs f s h =
      let t = volumes-Texts lvs f h in
      (
        sections t.texts,
        t.stores [] ∙ ap (λ m. ok (sections m)) (collect-IsSorted t.texts (t.sorted s)),
        t.loads [] ∙ ap ok (collect-IsSorted (reload_lvs lvs) (reload_lvs-IsSorted lvs s)),
      )
