-- ===== src/Util/Hyphens.antt =====
-- Taking the hyphens of src/util.rs out again.
use melvin.Prelude.{
  ℕ, zero, suc, ◌+◌, ◌<◌, ◌≡◌, ◌≢◌, refl, sym, ap, ◌∙◌, false, ◌==◌, Bool-cases, inl, inr, [], ◌∷◌,
  ◌++◌, append-nil, Bytes, All, length, take, drop, from_utf8_lossy, from_utf8_lossy-ascii, ok,
  arith,
}
use melvin.Util.{without_hyphens, part, hyphenated, hyphenate_uuid}

without_hyphens-append :
    (x y : Bytes) → without_hyphens (x ++ y) ≡ without_hyphens x ++ without_hyphens y
without_hyphens-append [] y = refl
without_hyphens-append (c ∷ cs) y = elim (Bool-cases (c == b'-')) [
  | inl hyphen ↦ rw hyphen (without_hyphens-append cs y)
  | inr other ↦ rw other (ap (◌∷◌ c) (without_hyphens-append cs y))
]

without_hyphens_none : (x : Bytes) → All (λ c. c ≢ b'-') x → without_hyphens x ≡ x
without_hyphens_none [] h = refl
without_hyphens_none (c ∷ cs) (h, hs) =
    let e : (c == b'-') ≡ false = ground arith in rw e (ap (◌∷◌ c) (without_hyphens_none cs hs))

All-take : (P : ℕ → Type 0) (n : ℕ) (x : Bytes) → All P x → All P (take n x)
All-take P zero x h = tt
All-take P (suc n) [] h = tt
All-take P (suc n) (c ∷ cs) (h, hs) = (h, All-take P n cs hs)

All-drop : (P : ℕ → Type 0) (n : ℕ) (x : Bytes) → All P x → All P (drop n x)
All-drop P zero x h = h
All-drop P (suc n) [] h = tt
All-drop P (suc n) (c ∷ cs) (h, hs) = All-drop P n cs hs

drop-nil : (n : ℕ) → drop {A = ℕ} n [] ≡ []
drop-nil zero = refl
drop-nil (suc n) = refl

drop-drop : (k n : ℕ) (x : Bytes) → drop n (drop k x) ≡ drop (k + n) x
drop-drop zero n x = let e : 0 + n ≡ n = omega arith in rw e refl
drop-drop (suc k) n [] = drop-nil n ∙ sym (drop-nil (suc k + n))
drop-drop (suc k) n (c ∷ cs) =
    let e : suc k + n ≡ suc (k + n) = omega arith in rw e (drop-drop k n cs)

take-drop : (n : ℕ) (x : Bytes) → take n x ++ drop n x ≡ x
take-drop zero x = refl
take-drop (suc n) [] = refl
take-drop (suc n) (c ∷ cs) = ap (◌∷◌ c) (take-drop n cs)

-- A slice, and what lies behind it.
slice-drop : (k n : ℕ) (x : Bytes) → take n (drop k x) ++ drop (k + n) x ≡ drop k x
slice-drop k n x = ap (λ r. take n (drop k x) ++ r) (sym (drop-drop k n x)) ∙ take-drop n (drop k x)

drop-all : (x : Bytes) → drop (length x) x ≡ []
drop-all [] = refl
drop-all (c ∷ cs) = drop-all cs

module _ (u : Bytes) (ascii : All (λ c. c < 128) u) (plain : All (λ c. c ≢ b'-') u) where
  part-plain : (k n : ℕ) → without_hyphens (from_utf8_lossy (take n (drop k u))) ≡ take n (drop k u)
  part-plain k n =
      rw
        (from_utf8_lossy-ascii (take n (drop k u)) (All-take _ n (drop k u) (All-drop _ k u ascii)))
        (without_hyphens_none (take n (drop k u)) (All-take _ n (drop k u) (All-drop _ k u plain)))

  -- One part in front of the rest.
  part-rest :
      (k n : ℕ) (rest : Bytes)
      → without_hyphens rest ≡ drop (k + n) u
      → without_hyphens (from_utf8_lossy (take n (drop k u)) ++ (b'-' ∷ rest)) ≡ drop k u
  part-rest k n rest h =
      without_hyphens-append (from_utf8_lossy (take n (drop k u))) (b'-' ∷ rest)
      ∙ rw (part-plain k n, h) (slice-drop k n u)

  -- If the identifier has 32 bytes, ASCII and none a hyphen, then hyphenating it does not panic, and the
  -- result without its hyphens is the identifier.
  pub without_hyphens-hyphenate_uuid :
      length u ≡ 32 → (t : Bytes) × (hyphenate_uuid u ≡ ok t) × (without_hyphens t ≡ u)
  unfolding hyphenate_uuid
  without_hyphens-hyphenate_uuid e =
      let last : without_hyphens (part u 26 32) ≡ drop 26 u =
        part-plain 26 6
        ∙ sym (append-nil (take 6 (drop 26 u)))
        ∙ ap (λ r. take 6 (drop 26 u) ++ r) (sym (drop-all u) ∙ ap (λ n. drop n u) e)
        ∙ slice-drop 26 6 u in
      (
        hyphenated u,
        rw e refl,
        part-rest 0 6 _ (
            part-rest 6 4 _
              (part-rest 10 4 _ (part-rest 14 4 _ (part-rest 18 4 _ (part-rest 22 4 _ last))))),
      )
