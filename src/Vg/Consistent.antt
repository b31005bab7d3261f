-- ===== src/Vg/Consistent.antt =====
-- What the operations of src/vg.rs keep of a volume group: its volumes and logical volumes agree.
use melvin.Prelude.{◌≡◌, ◌⊎◌, true, false, [], ◌∷◌, some, Bytes, arith, inl, inr, if◌then◌else◌}
use melvin.BTree.{Ord, BTreeMap, bytes_ord, insert, remove, get, contains_key, values}
use melvin.BTree.Laws.{
  IsSorted, insert-IsSorted, remove-IsSorted, get-insert, get-remove, contains_key-get,
}
use melvin.Types.{Pv, Lv, Vg}
use melvin.Vg.Physical.{any_segment, in_use}

module _ {D : Type 0} ⦃o : Ord D⦄ where
  in_use-insert :
      (e : D) (k : Bytes) (lv : Lv D) (m : BTreeMap Bytes (Lv D))
      → in_use e (values (insert k lv m)) ≡ true
      → (any_segment e lv.segments ≡ true) ⊎ (in_use e (values m) ≡ true)
  unfolding insert
  in_use-insert e k lv [] h = ground arith
  in_use-insert e k lv ((j, w) ∷ m) h = ground (arith, in_use-insert e k lv m)

  in_use-remove :
      (e : D) (k : Bytes) (m : BTreeMap Bytes (Lv D))
      → in_use e (values (remove k m)) ≡ true
      → in_use e (values m) ≡ true
  unfolding remove
  in_use-remove e k [] h = h
  in_use-remove e k ((j, w) ∷ m) h = ground (arith, in_use-remove e k m)

  in_use-get :
      (e : D) (k : Bytes) (lv : Lv D) (m : BTreeMap Bytes (Lv D))
      → get k m ≡ some lv
      → any_segment e lv.segments ≡ true
      → in_use e (values m) ≡ true
  unfolding get
  in_use-get e k lv [] h used = cc
  in_use-get e k lv ((j, w) ∷ m) h used = ground (arith, in_use-get e k lv m)

  contains_key-insert :
      (e k : D) (v : Pv D) (m : BTreeMap D (Pv D))
      → contains_key e (insert k v m) ≡ (if o.eq e k then true else contains_key e m)
  contains_key-insert e k v m =
      ground (arith, contains_key-get e (insert k v m), contains_key-get e m, get-insert e k v m)

  contains_key-remove :
      (e k : D) (m : BTreeMap D (Pv D))
      → IsSorted m
      → contains_key e (remove k m) ≡ (if o.eq e k then false else contains_key e m)
  contains_key-remove e k m s =
      ground (arith, contains_key-get e (remove k m), contains_key-get e m, get-remove e k m s)

  -- The keys ascend, a physical volume stands under its device, and every device that a logical volume
  -- uses is one of a physical volume.
  pub record AreConsistent (pvs : BTreeMap D (Pv D)) (lvs : BTreeMap Bytes (Lv D)) : Type 0 where
    pub pvs_sorted : IsSorted pvs
    pub lvs_sorted : IsSorted lvs
    pub keyed : (k : D) (pv : Pv D) → get k pvs ≡ some pv → pv.device ≡ k
    pub standing : (e : D) → in_use e (values lvs) ≡ true → contains_key e pvs ≡ true

  abbrev pub IsConsistent : Vg D → Type 0
  IsConsistent vg = AreConsistent vg.pvs vg.lvs

  pub AreConsistent-empty : AreConsistent [] []
  unfolding get
  AreConsistent-empty = record {
    pvs_sorted = tt;
    lvs_sorted = tt;
    keyed = λ k pv h. cc;
    standing = λ e h. cc;
  }

  module _ (pvs : BTreeMap D (Pv D)) (lvs : BTreeMap Bytes (Lv D)) (h : AreConsistent pvs lvs) where
    pub AreConsistent-insert_pv :
        (dev : D) (v : Pv D) → v.device ≡ dev → AreConsistent (insert dev v pvs) lvs
    AreConsistent-insert_pv dev v named = record {
      pvs_sorted = insert-IsSorted dev v pvs h.pvs_sorted;
      lvs_sorted = h.lvs_sorted;
      keyed = λ k pv found. ground (arith, get-insert k dev v pvs, o.eq_iff k dev, h.keyed k pv);
      standing = λ e used. ground (arith, contains_key-insert e dev v pvs, h.standing e);
    }

    pub AreConsistent-remove_pv :
        (dev : D) → in_use dev (values lvs) ≡ false → AreConsistent (remove dev pvs) lvs
    AreConsistent-remove_pv dev unused = record {
      pvs_sorted = remove-IsSorted dev pvs h.pvs_sorted;
      lvs_sorted = h.lvs_sorted;
      keyed = λ k pv found. ground (arith, get-remove k dev pvs h.pvs_sorted, h.keyed k pv);
      standing = λ e used.
          ground (arith, contains_key-remove e dev pvs h.pvs_sorted, h.standing e, o.eq_iff e dev);
    }

    pub AreConsistent-insert_lv :
        (k : Bytes) (lv : Lv D)
        → ((e : D) → any_segment e lv.segments ≡ true → contains_key e pvs ≡ true)
        → AreConsistent pvs (insert k lv lvs)
    AreConsistent-insert_lv k lv stands = record {
      pvs_sorted = h.pvs_sorted;
      lvs_sorted = insert-IsSorted k lv lvs h.lvs_sorted;
      keyed = h.keyed;
      standing = λ e used. elim (in_use-insert e k lv lvs used) [
        | inl new ↦ stands e new
        | inr old ↦ h.standing e old
      ];
    }

    pub AreConsistent-remove_lv : (k : Bytes) → AreConsistent pvs (remove k lvs)
    AreConsistent-remove_lv k = record {
      pvs_sorted = h.pvs_sorted;
      lvs_sorted = remove-IsSorted k lvs h.lvs_sorted;
      keyed = h.keyed;
      standing = λ e used. h.standing e (in_use-remove e k lvs used);
    }

    -- The segments of a volume that is there stand on physical volumes.
    pub standing-get :
        (k : Bytes) (lv : Lv D)
        → get k lvs ≡ some lv
        → (e : D) → any_segment e lv.segments ≡ true
        → contains_key e pvs ≡ true
    standing-get k lv found e used = h.standing e (in_use-get e k lv lvs found used)
