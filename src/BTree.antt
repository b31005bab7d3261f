-- ===== src/BTree.antt =====
-- `std::collections::BTreeMap`, as the list of its bindings in the order of their keys.
pub mod Laws
pub mod Collect
use melvin.Prelude.{
  ℕ, ◌≡◌, ◌↔◌, Bool, true, false, List, [], ◌∷◌, Option, none, some, Bytes, same, same_iff, before,
  before_irrefl, before_trans, before_total, if◌then◌else◌,
}

-- `Ord` and `Eq` of a type of keys.
pub record Ord (K : Type 0) : Type 0 where
  pub lt : K → K → Bool
  pub eq : K → K → Bool
  pub eq_iff : (a b : K) → (eq a b ≡ true) ↔ (a ≡ b)
  pub lt_irrefl : (a : K) → lt a a ≡ false
  pub lt_trans : (a b c : K) → lt a b ≡ true → lt b c ≡ true → lt a c ≡ true
  pub lt_total : (a b : K) → lt a b ≡ false → eq a b ≡ false → lt b a ≡ true

instance abbrev pub bytes_ord : Ord Bytes
bytes_ord = record {
  lt = before;
  eq = same;
  eq_iff = same_iff;
  lt_irrefl = before_irrefl;
  lt_trans = before_trans;
  lt_total = before_total;
}

abbrev pub BTreeMap : Type 0 → Type 0 → Type 0
BTreeMap K V = List (K × V)

module _ {K V : Type 0} ⦃o : Ord K⦄ where
  unfoldable pub insert : K → V → BTreeMap K V → BTreeMap K V
  insert k v [] = (k, v) ∷ []
  insert k v ((j, w) ∷ m) =
      if o.lt k j
      then (k, v) ∷ (j, w) ∷ m
      else if o.eq k j
      then (k, v) ∷ m
      else (j, w) ∷ insert k v m

  unfoldable pub get : K → BTreeMap K V → Option V
  get k [] = none
  get k ((j, w) ∷ m) = if o.eq k j then some w else get k m

  unfoldable pub contains_key : K → BTreeMap K V → Bool
  contains_key k [] = false
  contains_key k ((j, w) ∷ m) = if o.eq k j then true else contains_key k m

  unfoldable pub remove : K → BTreeMap K V → BTreeMap K V
  remove k [] = []
  remove k ((j, w) ∷ m) = if o.eq k j then m else (j, w) ∷ remove k m

  -- `iter().collect()`
  unfoldable pub collect : List (K × V) → BTreeMap K V → BTreeMap K V
  collect [] m = m
  collect ((k, v) ∷ l) m = collect l (insert k v m)

module _ {K V : Type 0} where
  abbrev pub keys : BTreeMap K V → List K
  keys [] = []
  keys ((k, v) ∷ m) = k ∷ keys m

  abbrev pub values : BTreeMap K V → List V
  values [] = []
  values ((k, v) ∷ m) = v ∷ values m
