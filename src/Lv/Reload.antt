-- ===== src/Lv/Reload.antt =====
-- What the segments of src/lv.rs are after they were written and read again.
use melvin.Prelude.{
  ℕ, ◌<◌, ◌==◌, ◌≡◌, refl, not, List, [], ◌∷◌, some, Bytes, before, same, two64, as_i64,
  as_u64-as_i64, Option-cases, inl, inr, arith, ok,
}
use melvin.BTree
use melvin.BTree.{Ord, BTreeMap, bytes_ord}
use melvin.Types.{
  Pv, Segment, striped, thinpool, thin, StripedSegment, ThinpoolSegment, ThinSegment, DiscardPolicy,
  passdown, no_passdown, ignore,
}
use melvin.Parser.TextMap.{Entry, Entries, TextMap, insert, get}
use melvin.Lv.Segments
use melvin.Lv.Segments.{
  pv_name, striped_map, discard_policy, discard_text, nonzero, store_stripes, load_stripes,
  from_textmap, to_textmap,
}

module _ {D : Type 0} where
  -- The stripe size and the zeroing of new blocks are read from "start_extent".
  abbrev pub reload : Segment D → Segment D
  reload (striped s) = striped (record s { stripe_size = some s.start_extent })
  reload (thinpool s) = thinpool (record s { zero_new_blocks = not (s.start_extent == 0) })
  reload (thin s) = thin s

discard_policy-discard_text : (d : DiscardPolicy) → discard_policy (some (discard_text d)) ≡ ok d
unfolding discard_policy same
discard_policy-discard_text passdown = refl
discard_policy-discard_text no_passdown = refl
discard_policy-discard_text ignore = refl

nonzero-as_i64 : (n : ℕ) → n < two64 → nonzero (as_i64 n) ≡ not (n == 0)
unfolding as_i64
nonzero-as_i64 n h = ground arith

module _ {D : Type 0} ⦃o : Ord D⦄ (dev_to_idx : BTreeMap D ℕ) (pvs : BTreeMap Bytes (Pv D)) where
  -- The index of the device names a volume with that device.
  abbrev pub IsLinked : D → Type 0
  IsLinked dev =
      (i : ℕ) × (pv : Pv D) × (BTree.get dev dev_to_idx ≡ some i)
      × (BTree.get (pv_name i) pvs ≡ some pv)
      × (pv.device ≡ dev)

  abbrev pub AreLinked : List (D × ℕ) → Type 0
  AreLinked [] = Unit
  AreLinked ((dev, ext) ∷ stripes) = (ext < two64) × IsLinked dev × AreLinked stripes

  -- Numbers that fit `u64`, and linked devices.
  abbrev pub IsStorable : Segment D → Type 0
  IsStorable (striped s) = (s.start_extent < two64) × (s.extent_count < two64) × AreLinked s.stripes
  IsStorable (thinpool s) =
      (s.start_extent < two64)
      × (s.extent_count < two64)
      × (s.transaction_id < two64)
      × (s.chunk_size < two64)
  IsStorable (thin s) =
      (s.start_extent < two64)
      × (s.extent_count < two64)
      × (s.transaction_id < two64)
      × (s.device_id < two64)

  load-store_stripes :
      (stripes : List (D × ℕ))
      → AreLinked stripes
      → (l : Entries) × (store_stripes stripes dev_to_idx ≡ ok l)
        × (load_stripes pvs l ≡ ok stripes)
  unfolding store_stripes load_stripes
  load-store_stripes [] h = (Entries.nil, refl, refl)
  load-store_stripes ((dev, ext) ∷ stripes) (he, (i, pv, hi, hp, hd), hs) =
      let (l, e, g) = load-store_stripes stripes hs in
      (
        Entries.cons (Entry.string (pv_name i)) (Entries.cons (Entry.number (as_i64 ext)) l),
        rw (hi, e),
        rw (hp, hd, as_u64-as_i64 ext he, g),
      )

  abbrev Reloads : Segment D → Type 0
  Reloads s =
      (map : TextMap) × (to_textmap s dev_to_idx ≡ ok map) × (from_textmap map pvs ≡ ok (reload s))

  thin-Reloads : (s : ThinSegment) → IsStorable (thin s) → Reloads (thin s)
  unfolding to_textmap from_textmap insert get before same Segments.thin_from_textmap
  thin-Reloads s (h1, h2, h3, h4) = (
    Segments.thin_to_textmap s,
    refl,
    rw (
      as_u64-as_i64 s.start_extent h1,
      as_u64-as_i64 s.extent_count h2,
      as_u64-as_i64 s.transaction_id h3,
      as_u64-as_i64 s.device_id h4,
    ),
  )

  thinpool-Reloads : (s : ThinpoolSegment) → IsStorable (thinpool s) → Reloads (thinpool s)
  unfolding to_textmap from_textmap insert get before same Segments.thinpool_from_textmap
  thinpool-Reloads s (h1, h2, h3, h4) = (
    Segments.thinpool_to_textmap s,
    refl,
    rw (
      discard_policy-discard_text s.discards,
      nonzero-as_i64 s.start_extent h1,
      as_u64-as_i64 s.start_extent h1,
      as_u64-as_i64 s.extent_count h2,
      as_u64-as_i64 s.transaction_id h3,
      as_u64-as_i64 s.chunk_size h4,
    ),
  )

  striped-Reloads : (s : StripedSegment D) → IsStorable (striped s) → Reloads (striped s)
  unfolding to_textmap from_textmap insert get before same Segments.striped_from_textmap
  striped-Reloads s (h1, h2, hs) =
      let (l, e, g) = load-store_stripes s.stripes hs in
      let u1 = as_u64-as_i64 s.start_extent h1 in
      let u2 = as_u64-as_i64 s.extent_count h2 in
      (
        striped_map s l,
        rw e,
        elim (Option-cases s.stripe_size) [
          | inl no_size ↦ rw no_size (rw (g, u1, u2))
          | inr (n, size) ↦ rw size (rw (g, u1, u2))
        ],
      )

  -- A segment of any kind, with numbers that fit `u64` and stripes on devices with an index and a physical volume, is written with no
  -- panic and read again as `reload` says.
  pub segment_reload : (s : Segment D) → IsStorable s → Reloads s
  segment_reload (striped s) h = striped-Reloads s h
  segment_reload (thinpool s) h = thinpool-Reloads s h
  segment_reload (thin s) h = thin-Reloads s h
