-- ===== src/BTree/Collect.antt =====
-- Laws of `collect`: bindings under different keys may come in any order, and a map in the order of
-- its keys is the map that is collected from it.
use melvin.Prelude.{◌≡◌, refl, ap, ◌∙◌, false, List, [], ◌∷◌, none, Bool-cases, inl, inr, arith}
use melvin.BTree.{Ord, BTreeMap, insert, get, collect}
use melvin.BTree.Laws.{IsAfter, IsSorted, get-IsAfter, insert-IsSorted}

module _ {K V : Type 0} ⦃o : Ord K⦄ where
  pub insert-insert :
      (j k : K) (v w : V) (m : BTreeMap K V)
      → o.eq j k ≡ false
      → insert j v (insert k w m) ≡ insert k w (insert j v m)
  unfolding insert
  insert-insert j k v w [] h =
      ground (arith, o.eq_iff j k, o.eq_iff k j, o.lt_total j k, o.lt_trans j k j, o.lt_irrefl j)
  insert-insert j k v w ((i, x) ∷ m) h = ground (
    arith,
    insert-insert j k v w m h,
    o.eq_iff j k,
    o.eq_iff k j,
    o.eq_iff j i,
    o.eq_iff k i,
    o.lt_total j k,
    o.lt_trans j k j,
    o.lt_irrefl j,
    o.lt_trans j k i,
    o.lt_trans k j i,
    o.lt_trans j i k,
    o.lt_trans k i j,
    o.lt_irrefl k,
  )

  pub collect-insert :
      (k : K) (v : V) (l : List (K × V)) (m : BTreeMap K V)
      → get k l ≡ none
      → collect l (insert k v m) ≡ insert k v (collect l m)
  unfolding collect get
  collect-insert k v [] m h = refl
  collect-insert k v ((j, w) ∷ l) m h = elim (Bool-cases (o.eq k j)) [
    | inl same_key ↦ ground arith
    | inr other ↦
        rw (insert-insert j k w v m (ground (arith, o.eq_iff j k, o.eq_iff k j)))
          (collect-insert k v l (insert j w m) (ground arith))
  ]

  insert-IsAfter : (k : K) (v : V) (m : BTreeMap K V) → IsAfter k m → insert k v m ≡ (k, v) ∷ m
  unfolding insert
  insert-IsAfter k v [] h = refl
  insert-IsAfter k v ((j, w) ∷ m) (h, hs) = rw h refl

  pub collect-IsSorted : (m : BTreeMap K V) → IsSorted m → collect m [] ≡ m
  unfolding collect
  collect-IsSorted [] s = refl
  collect-IsSorted ((k, v) ∷ m) (a, s) =
      collect-insert k v m [] (get-IsAfter k m a)
      ∙ ap (insert k v) (collect-IsSorted m s)
      ∙ insert-IsAfter k v m a

  pub collected-IsSorted :
      (l : List (K × V)) (m : BTreeMap K V) → IsSorted m → IsSorted (collect l m)
  unfolding collect
  collected-IsSorted [] m s = s
  collected-IsSorted ((k, v) ∷ l) m s =
      collected-IsSorted l (insert k v m) (insert-IsSorted k v m s)
