-- ===== src/Parser/TextMap/Laws.antt =====
-- Laws of the map of src/parser.rs: `get` after `insert`, the order of the keys.
use melvin.Prelude.{
  ◌≡◌, refl, true, some, Bytes, same, same_iff, before, before_trans, before_total, if◌then◌else◌,
  arith, List, [], ◌∷◌,
}
use melvin.Parser.TextMap.{Entry, TextMap, empty, bind, insert, get, strings_of, entries_of}

pub get-insert :
    (j k : Bytes) (v : Entry) (m : TextMap)
    → get j (insert k v m) ≡ (if same j k then some v else get j m)
unfolding get insert
get-insert j k v empty = refl
get-insert j k v (bind i w m) =
    ground (arith, get-insert j k v m, same_iff k i, same_iff j i, same_iff j k)

-- Every key of the map lies behind `k`.
abbrev pub IsAfter : Bytes → TextMap → Type 0
IsAfter k empty = Unit
IsAfter k (bind j w m) = (before k j ≡ true) × IsAfter k m

-- The keys ascend.
abbrev pub IsSorted : TextMap → Type 0
IsSorted empty = Unit
IsSorted (bind k v m) = IsAfter k m × IsSorted m

pub IsAfter-trans : (a b : Bytes) (m : TextMap) → before a b ≡ true → IsAfter b m → IsAfter a m
IsAfter-trans a b empty h k = tt
IsAfter-trans a b (bind j w m) h (k, ks) = (before_trans a b j h k, IsAfter-trans a b m h ks)

pub IsAfter-insert :
    (a k : Bytes) (v : Entry) (m : TextMap)
    → before a k ≡ true
    → IsAfter a m
    → IsAfter a (insert k v m)
unfolding insert
IsAfter-insert a k v empty h g = (h, tt)
IsAfter-insert a k v (bind j w m) h (g, gs) = ground (arith, IsAfter-insert a k v m h gs)

-- An insertion keeps the order of the keys.
pub insert-IsSorted : (k : Bytes) (v : Entry) (m : TextMap) → IsSorted m → IsSorted (insert k v m)
unfolding insert
insert-IsSorted k v empty s = (tt, tt)
insert-IsSorted k v (bind j w m) (a, s) = ground (
  arith,
  insert-IsSorted k v m s,
  IsAfter-trans k j m,
  same_iff k j,
  before_total k j,
  IsAfter-insert j k v m,
)

pub strings_of-entries_of : (xs : List Bytes) → strings_of (entries_of xs) ≡ xs
unfolding strings_of entries_of
strings_of-entries_of [] = refl
strings_of-entries_of (x ∷ xs) = rw (strings_of-entries_of xs)
