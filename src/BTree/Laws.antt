-- ===== src/BTree/Laws.antt =====
-- Laws of the maps.
use mathlib.Core.List.{Memᴰ}
use mathlib.Core.List.Memᴰ.{head, tail}
use melvin.Prelude.{
  ◌≡◌, refl, sym, ap, Bool-cases, inl, inr, Bool, true, false, [], ◌∷◌, none, some, if◌then◌else◌,
  arith,
}
use melvin.BTree.{Ord, BTreeMap, insert, get, contains_key, remove}

module _ {K V : Type 0} ⦃o : Ord K⦄ where
  pub get-insert :
      (j k : K) (v : V) (m : BTreeMap K V)
      → get j (insert k v m) ≡ (if o.eq j k then some v else get j m)
  unfolding get insert
  get-insert j k v [] = refl
  get-insert j k v ((i, w) ∷ m) =
      ground (arith, get-insert j k v m, o.eq_iff k i, o.eq_iff j i, o.eq_iff j k)

  -- The keys ascend from `k` on.
  abbrev pub IsAfter : K → BTreeMap K V → Type 0
  IsAfter k [] = Unit
  IsAfter k ((j, w) ∷ m) = (o.lt k j ≡ true) × IsAfter k m

  abbrev pub IsSorted : BTreeMap K V → Type 0
  IsSorted [] = Unit
  IsSorted ((k, v) ∷ m) = IsAfter k m × IsSorted m

  pub IsAfter-trans : (a b : K) (m : BTreeMap K V) → o.lt a b ≡ true → IsAfter b m → IsAfter a m
  IsAfter-trans a b [] h k = tt
  IsAfter-trans a b ((j, w) ∷ m) h (k, ks) = (o.lt_trans a b j h k, IsAfter-trans a b m h ks)

  IsAfter-insert :
      (a k : K) (v : V) (m : BTreeMap K V)
      → o.lt a k ≡ true
      → IsAfter a m
      → IsAfter a (insert k v m)
  unfolding insert
  IsAfter-insert a k v [] h g = (h, tt)
  IsAfter-insert a k v ((j, w) ∷ m) h (g, gs) = ground (arith, IsAfter-insert a k v m h gs)

  pub insert-IsSorted : (k : K) (v : V) (m : BTreeMap K V) → IsSorted m → IsSorted (insert k v m)
  unfolding insert
  insert-IsSorted k v [] s = (tt, tt)
  insert-IsSorted k v ((j, w) ∷ m) (a, s) = ground (
    arith,
    insert-IsSorted k v m s,
    IsAfter-trans k j m,
    o.eq_iff k j,
    o.lt_total k j,
    IsAfter-insert j k v m,
  )

  IsAfter-remove : (a k : K) (m : BTreeMap K V) → IsAfter a m → IsAfter a (remove k m)
  unfolding remove
  IsAfter-remove a k [] h = tt
  IsAfter-remove a k ((j, w) ∷ m) (h, hs) = ground (arith, IsAfter-remove a k m hs)

  pub remove-IsSorted : (k : K) (m : BTreeMap K V) → IsSorted m → IsSorted (remove k m)
  unfolding remove
  remove-IsSorted k [] s = tt
  remove-IsSorted k ((j, w) ∷ m) (a, s) =
      ground (arith, remove-IsSorted k m s, IsAfter-remove j k m a)

  pub get-IsAfter : (k : K) (m : BTreeMap K V) → IsAfter k m → get k m ≡ none
  unfolding get
  get-IsAfter k [] h = refl
  get-IsAfter k ((j, w) ∷ m) (h, hs) =
      ground (arith, get-IsAfter k m hs, o.eq_iff k j, o.lt_irrefl k)

  -- In a sorted map the removed key is gone, and no other key is touched.
  pub get-remove :
      (j k : K) (m : BTreeMap K V)
      → IsSorted m
      → get j (remove k m) ≡ (if o.eq j k then none else get j m)
  unfolding get remove
  get-remove j k [] s = ground arith
  get-remove j k ((i, w) ∷ m) (a, s) =
      ground
        (arith, get-remove j k m s, get-IsAfter i m a, o.eq_iff k i, o.eq_iff j i, o.eq_iff j k)

  pub contains_key-get :
      (k : K) (m : BTreeMap K V)
      → contains_key k m ≡ elim (get k m) as (λ _. Bool) [ none ↦ false | some _ ↦ true ]
  unfolding contains_key get
  contains_key-get k [] = refl
  contains_key-get k ((j, w) ∷ m) = ground (arith, contains_key-get k m)

-- What a binding of a map gives.
module _ {K V : Type 0} ⦃o : Ord K⦄ where
  IsAfter-Mem : (j k : K) (v : V) (m : BTreeMap K V) → IsAfter j m → Memᴰ (k, v) m → o.lt j k ≡ true
  IsAfter-Mem j k v [] a there = elim there [ ]
  IsAfter-Mem j k v ((i, w) ∷ m) (a, later) there = elim there [
    | head at ↦ let same_key : k ≡ i = ap (λ (x : K × V). x.0) at in rw same_key a
    | tail deeper ↦ IsAfter-Mem j k v m later deeper
  ]

  pub get-Mem : (k : K) (v : V) (m : BTreeMap K V) → IsSorted m → Memᴰ (k, v) m → get k m ≡ some v
  unfolding get
  get-Mem k v [] s there = elim there [ ]
  get-Mem k v ((j, w) ∷ m) (after, s) there = elim there [
    | head at ↦
        let self : o.eq k j ≡ true = (o.eq_iff k j).1 (ap (λ (x : K × V). x.0) at) in
        rw self (ap some (sym (ap (λ (x : K × V). x.1) at)))
    | tail deeper ↦
        let later : o.lt j k ≡ true = IsAfter-Mem j k v m after deeper in
        let rest = get-Mem k v m s deeper in
        elim (Bool-cases (o.eq k j)) [
          | inl self ↦
              let same_key : k ≡ j = (o.eq_iff k j).0 self in
              let never : o.lt j j ≡ true = rw same_key at later in let irrefl = o.lt_irrefl j in cc
          | inr other ↦ rw other rest
        ]
  ]
