-- ===== src/Disk/Laws.antt =====
-- Reading what was written to a device.
use melvin.Prelude.{
  ℕ, zero, suc, ◌+◌, ◌-◌, ◌≤◌, ◌<◌, ◌≡◌, ◌⊎◌, inl, inr, refl, sym, ap, ◌∙◌, leb, [], ◌∷◌, ◌++◌,
  append-nil, Bytes, length, take, drop, slice, ok, arith, true,
}
use Prim.Native.Nat.{min}
use melvin.Disk.{Store, set, write, read, zeros, Disk, read_into, write_all}

pub length-read : (i n : ℕ) (s : Store) → length (read i n s) ≡ n
unfolding read
length-read i zero s = refl
length-read i (suc n) s = ap suc (length-read (i + 1) n s)

drop-all : (b : Bytes) → drop (length b) b ≡ []
drop-all [] = refl
drop-all (c ∷ cs) = drop-all cs

pub length-zeros : (n : ℕ) → length (zeros n) ≡ n
unfolding zeros
length-zeros zero = refl
length-zeros (suc n) = ap suc (length-zeros n)

-- A position outside of what was written.
pub write-outside :
    (i j : ℕ) (b : Bytes) (s : Store) → (j < i) ⊎ (i + length b ≤ j) → write i b s j ≡ s j
unfolding write
write-outside i j [] s h = refl
write-outside i j (c ∷ cs) s (inl h) =
    ground (arith, write-outside (i + 1) j cs s (inl (omega arith)))
write-outside i j (c ∷ cs) s (inr h) =
    ground (arith, write-outside (i + 1) j cs s (inr (omega arith)))

-- Positions outside of what was written.
pub read-write_outside :
    (i n j : ℕ) (b : Bytes) (s : Store)
    → (i + n ≤ j) ⊎ (j + length b ≤ i)
    → read i n (write j b s) ≡ read i n s
unfolding read
read-write_outside i zero j b s h = refl
read-write_outside i (suc n) j b s (inl h) =
    rw (write-outside j i b s (inl (omega arith)))
      (ap (◌∷◌ (s i)) (read-write_outside (i + 1) n j b s (inl (omega arith))))
read-write_outside i (suc n) j b s (inr h) =
    rw (write-outside j i b s (inr (omega arith)))
      (ap (◌∷◌ (s i)) (read-write_outside (i + 1) n j b s (inr (omega arith))))

read-set_outside : (i n j c : ℕ) (s : Store) → j < i → read i n (set j c s) ≡ read i n s
unfolding read
read-set_outside i zero j c s h = refl
read-set_outside i (suc n) j c s h = ground (arith, read-set_outside (i + 1) n j c s (omega arith))

pub read-write : (i : ℕ) (b : Bytes) (s : Store) → read i (length b) (write i b s) ≡ b
unfolding read write
read-write i [] s = refl
read-write i (c ∷ cs) s = ground (
  arith,
  read-set_outside (i + 1) (length cs) i c (write (i + 1) cs s) (omega arith),
  read-write (i + 1) cs s,
)

pub read-append : (i m n : ℕ) (s : Store) → read i m s ++ read (i + m) n s ≡ read i (m + n) s
unfolding read
read-append i zero n s =
    let e1 : i + 0 ≡ i = omega arith in let e2 : 0 + n ≡ n = omega arith in rw (e1, e2) refl
read-append i (suc m) n s =
    let e1 : i + suc m ≡ i + 1 + m = omega arith in
    let e2 : suc m + n ≡ suc (m + n) = omega arith in
    rw (e1, e2) (ap (◌∷◌ (s i)) (read-append (i + 1) m n s))

drop-length : (a b : Bytes) (k : ℕ) → length a ≡ k → drop k (a ++ b) ≡ b
drop-length [] b zero h = refl
drop-length [] b (suc k) h = cc
drop-length (c ∷ a) b zero h = cc
drop-length (c ∷ a) b (suc k) h = drop-length a b k (omega arith)

take-length : (a b : Bytes) (k : ℕ) → length a ≡ k → take k (a ++ b) ≡ a
take-length [] b zero h = refl
take-length [] b (suc k) h = cc
take-length (c ∷ a) b zero h = cc
take-length (c ∷ a) b (suc k) h = ap (◌∷◌ c) (take-length a b k (omega arith))

-- The slices of what was read.
pub drop-read : (i k n m : ℕ) (s : Store) → k + m ≡ n → drop k (read i n s) ≡ read (i + k) m s
drop-read i k n m s h =
    rw (sym h, sym (read-append i k m s))
      (drop-length (read i k s) (read (i + k) m s) k (length-read i k s))

pub take-read : (i k n : ℕ) (s : Store) → k ≤ n → take k (read i n s) ≡ read i k s
take-read i k n s h =
    let e : n ≡ k + (n - k) = omega arith in
    rw (e, sym (read-append i k (n - k) s))
      (take-length (read i k s) (read (i + k) (n - k) s) k (length-read i k s))

pub slice-read :
    (i a b n : ℕ) (s : Store) → a ≤ b → b ≤ n → slice (read i n s) a b ≡ read (i + a) (b - a) s
slice-read i a b n s h k =
    rw (drop-read i a n (n - a) s (omega arith)) (take-read (i + a) (b - a) (n - a) s (omega arith))

pub read_into-full :
    (d : Disk) (p : ℕ) (buf : Bytes)
    → p + length buf ≤ d.size
    → read_into d p buf ≡ read p (length buf) d.store
unfolding read_into
read_into-full d p buf h =
    let e : min (length buf) (d.size - p) ≡ length buf = omega arith in
    rw (e, drop-all buf) (append-nil (read p (length buf) d.store))

pub write_all-inside :
    (d : Disk) (p : ℕ) (buf : Bytes)
    → p + length buf ≤ d.size
    → write_all d p buf ≡ ok (record d { store = write p buf d.store })
unfolding write_all
write_all-inside d p buf h = let e : leb (p + length buf) d.size ≡ true = ground arith in rw e refl

pub read_into-zeros :
    (d : Disk) (p n : ℕ) → p + n ≤ d.size → read_into d p (zeros n) ≡ read p n d.store
read_into-zeros d p n h =
    let e = length-zeros n in read_into-full d p (zeros n) (rw e h) ∙ ap (λ k. read p k d.store) e

-- Part of what was written.
pub read-write_within :
    (i m a n : ℕ) (t s : Store) → a + n ≤ m → read (i + a) n (write i (read 0 m t) s) ≡ read a n t
read-write_within i m a n t s h =
    let whole : read i m (write i (read 0 m t) s) ≡ read 0 m t =
      ap (λ k. read i k (write i (read 0 m t) s)) (sym (length-read 0 m t))
      ∙ read-write i (read 0 m t) s in
    let count : a + n - a ≡ n = omega arith in
    let e : 0 + a ≡ a = omega arith in
    let outer = slice-read i a (a + n) m (write i (read 0 m t) s) (omega arith) h in
    let inner = slice-read 0 a (a + n) m t (omega arith) h in
    ap (λ k. read (i + a) k (write i (read 0 m t) s)) (sym count)
    ∙ sym outer
    ∙ ap (λ b. slice b a (a + n)) whole
    ∙ inner
    ∙ ap (λ k. read k (a + n - a) t) e
    ∙ ap (λ k. read a k t) count
