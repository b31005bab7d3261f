-- ===== src/Prelude/Act.antt =====
-- Calls that change a state and may fail: what they leave behind, and how they ended. A failure keeps
-- the state as it was when the call failed.
use mathlib.Core.Path.{◌≡◌, refl, ap, ◌∙◌}
use mathlib.Core.Bool.{Bool, true, false}
use melvin.Prelude.Compare.{if◌then◌else◌}
use melvin.Prelude.Fallible
use melvin.Prelude.Fallible.{Result, ok, err, panicked, out_of_fuel}

abbrev pub Act : Type 0 → Type 0 → Type 0
Act S A = S → S × Result A

module _ {S A B : Type 0} where
  -- What follows, if the call returned a value.
  abbrev pub next : S × Result A → (A → Act S B) → S × Result B
  next (s, ok a) f = f a s
  next (s, err e) f = (s, err e)
  next (s, panicked) f = (s, panicked)
  next (s, out_of_fuel) f = (s, out_of_fuel)

  infixl 5 ◌>>=◌
  abbrev pub ◌>>=◌ : Act S A → (A → Act S B) → Act S B
  ◌>>=◌ m f = λ s. next (m s) f

module _ {S : Type 0} where
  -- A value that needs no state.
  abbrev pub lift : {A : Type 0} → Result A → Act S A
  lift r = λ s. (s, r)

  -- A value that is read from the state.
  abbrev pub reads : {A : Type 0} → (S → Result A) → Act S A
  reads f = λ s. (s, f s)

  abbrev pub done : Act S (Unit {0})
  done = λ s. (s, ok tt)

  abbrev pub modify : (S → S) → Act S (Unit {0})
  modify f = λ s. (f s, ok tt)

  -- The state, if the call succeeded.
  abbrev pub settled : S × Result (Unit {0}) → Result S
  settled (s, ok _) = ok s
  settled (s, err e) = err e
  settled (s, panicked) = panicked
  settled (s, out_of_fuel) = out_of_fuel

  pub settled-inv : (o : S × Result (Unit {0})) (s2 : S) → settled o ≡ ok s2 → o.0 ≡ s2
  settled-inv (s, ok _) s2 h = cc
  settled-inv (s, err e) s2 h = cc
  settled-inv (s, panicked) s2 h = cc
  settled-inv (s, out_of_fuel) s2 h = cc

  pub settled-if :
      (b : Bool) (m n : Act S (Unit {0})) (s : S) {f g : Result S}
      → settled (m s) ≡ f
      → settled (n s) ≡ g
      → settled ((if b then m else n) s) ≡ (if b then f else g)
  settled-if true m n s h k = h
  settled-if false m n s h k = k

  -- One call behind the other.
  pub settled-bind :
      (m k : Act S (Unit {0})) (f g : S → Result S)
      → ((s : S) → settled (m s) ≡ f s)
      → ((s : S) → settled (k s) ≡ g s)
      → (s : S) → settled ((m >>= λ _. k) s) ≡ Fallible.◌>>=◌ (f s) g
  settled-bind m k f g h e s = by_outcome (m s) ∙ ap (λ r. Fallible.◌>>=◌ r g) (h s)
    where
      by_outcome :
          (o : S × Result (Unit {0})) → settled (next o (λ _. k)) ≡ Fallible.◌>>=◌ (settled o) g
      by_outcome (s2, ok _) = e s2
      by_outcome (s2, err x) = refl
      by_outcome (s2, panicked) = refl
      by_outcome (s2, out_of_fuel) = refl

  -- A value that is read from the state, and what is done with it.
  pub settled-reads :
      {A : Type 0} (f : S → Result A) (k : A → Act S (Unit {0})) (s : S) (g : A → Result S)
      → ((a : A) → settled (k a s) ≡ g a)
      → settled ((reads f >>= k) s) ≡ Fallible.◌>>=◌ (f s) g
  settled-reads {A} f k s g h = by_result (f s)
    where
      by_result : (r : Result A) → settled (next (s, r) k) ≡ Fallible.◌>>=◌ r g
      by_result (ok a) = h a
      by_result (err e) = refl
      by_result panicked = refl
      by_result out_of_fuel = refl

  -- What holds of the state whatever was read from it: also where a failure ends the chain.
  pub kept-reads :
      {A : Type 0} (I : S → Type 0) (f : S → Result A) (k : A → Act S (Unit {0})) (s : S)
      → I s
      → ((a : A) → f s ≡ ok a → I (k a s).0)
      → I ((reads f >>= k) s).0
  kept-reads {A} I f k s h next_holds = by_result (f s) refl
    where
      by_result : (r : Result A) → f s ≡ r → I (next (s, r) k).0
      by_result (ok a) e = next_holds a e
      by_result (err e) _ = h
      by_result panicked _ = h
      by_result out_of_fuel _ = h

  pub kept-if :
      (I : S → Type 0) (b : Bool) (m n : Act S (Unit {0})) (s : S)
      → (b ≡ true → I (m s).0)
      → (b ≡ false → I (n s).0)
      → I ((if b then m else n) s).0
  kept-if I true m n s h k = h refl
  kept-if I false m n s h k = k refl

module _ {S B : Type 0} where
  -- The value and the state, if the call returned a value.
  abbrev pub returned : S × Result B → Result (B × S)
  returned (s, r) = Fallible.◌>>=◌ r (λ b. ok (b, s))

  pub returned-reads :
      {A : Type 0} (f : S → Result A) (k : A → Act S B) (s : S) (g : A → Result (B × S))
      → ((a : A) → returned (k a s) ≡ g a)
      → returned ((reads f >>= k) s) ≡ Fallible.◌>>=◌ (f s) g
  returned-reads {A} f k s g h = by_result (f s)
    where
      by_result : (r : Result A) → returned (next (s, r) k) ≡ Fallible.◌>>=◌ r g
      by_result (ok a) = h a
      by_result (err e) = refl
      by_result panicked = refl
      by_result out_of_fuel = refl

  pub returned-if :
      (b : Bool) (m n : Act S B) (s : S) {f g : Result (B × S)}
      → returned (m s) ≡ f
      → returned (n s) ≡ g
      → returned ((if b then m else n) s) ≡ (if b then f else g)
  returned-if true m n s h k = h
  returned-if false m n s h k = k

  -- A call without a value, and a value behind it.
  pub returned-then :
      (m : Act S (Unit {0})) (b : B) (s : S)
      → returned ((m >>= λ _. lift (ok b)) s) ≡ Fallible.◌>>=◌ (settled (m s)) (λ s2. ok (b, s2))
  returned-then m b s = by_outcome (m s)
    where
      by_outcome :
          (r : S × Result (Unit {0}))
          → returned (next r (λ _. lift (ok b))) ≡ Fallible.◌>>=◌ (settled r) (λ s2. ok (b, s2))
      by_outcome (s2, ok _) = refl
      by_outcome (s2, err e) = refl
      by_outcome (s2, panicked) = refl
      by_outcome (s2, out_of_fuel) = refl
