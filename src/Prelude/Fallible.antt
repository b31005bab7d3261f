-- ===== src/Prelude/Fallible.antt =====
-- The outcome of a fallible call: a value, an `Err`, or a panic. `out_of_fuel` has no counterpart
-- in the program.
use mathlib.Core.Path.{◌≡◌, refl}
use mathlib.Core.Logic.{◌≢◌}
use mathlib.Core.Option.{Option, none, some}

-- The errors, one constructor for each message (error.rs wraps all of them in `Error::Io`).
pub data Error : Type 0 where
  token_mismatch unexpected_in_list unexpected_ident unexpected_rvalue unexpected_after_ident :
      Error
  status_parsing device_parsing pv_parsing lv_parsing vg_parsing expected_pv expected_lv : Error
  io_failed label_crc label_misplaced label_missing device_too_small : Error
  mda_checksum mda_magic mda_version mda_start mda_size text_checksum no_metadata no_volume_group :
      Error
  pvs_required no_metadata_area pv_in_named_vg pv_in_vg no_data_area pv_in_use pv_not_removed :
      Error
  lv_exists no_contiguous_area meta_lv_not_found data_lv_not_found lv_not_found : Error
  dm_failed device_name_refused : Error
  striped_parsing thinpool_parsing thinpool_discards thin_parsing : Error

pub data Result {ℓ} (Value : Type ℓ) : Type ℓ where
  panicked out_of_fuel : Result Value
  err : Error → Result Value
  ok : Value → Result Value

infixl 5 ◌>>=◌
abbrev pub ◌>>=◌ {ℓ κ} :
    {First : Type ℓ} {Second : Type κ} → Result First → (First → Result Second) → Result Second
panicked >>= next = panicked
out_of_fuel >>= next = out_of_fuel
err message >>= next = err message
ok value >>= next = next value

-- `o.ok_or(e)?`
abbrev pub ok_or {ℓ} : {Value : Type ℓ} → Option Value → Error → Result Value
ok_or none message = err message
ok_or (some value) message = ok value

-- `o.unwrap()`
abbrev pub unwrap {ℓ} : {Value : Type ℓ} → Option Value → Result Value
unwrap none = panicked
unwrap (some value) = ok value

pub bind_ok {ℓ} : {A : Type ℓ} (r : Result A) → (r >>= λ a. ok a) ≡ r
bind_ok (ok a) = refl
bind_ok (err e) = refl
bind_ok panicked = refl
bind_ok out_of_fuel = refl

pub bind_ok_ok {ℓ} :
    {A B C : Type ℓ} (r : Result A) (f : A → B) (g : B → C)
    → ((r >>= λ a. ok (f a)) >>= λ b. ok (g b)) ≡ (r >>= λ a. ok (g (f a)))
bind_ok_ok (ok a) f g = refl
bind_ok_ok (err e) f g = refl
bind_ok_ok panicked f g = refl
bind_ok_ok out_of_fuel f g = refl

pub bind-ne-out_of_fuel {ℓ κ} :
    {A : Type ℓ} {B : Type κ} (m : Result A) (f : A → Result B)
    → m ≢ out_of_fuel
    → ((a : A) → m ≡ ok a → f a ≢ out_of_fuel)
    → (m >>= f) ≢ out_of_fuel
bind-ne-out_of_fuel (ok a) f h k = k a refl
bind-ne-out_of_fuel (err e) f h k = cc
bind-ne-out_of_fuel panicked f h k = cc
bind-ne-out_of_fuel out_of_fuel f h k = absurd (h refl)

-- `r.expect(message)`, and `r.unwrap()` of a result
abbrev pub expect {ℓ} : {Value : Type ℓ} → Result Value → Result Value
expect (ok value) = ok value
expect (err message) = panicked
expect panicked = panicked
expect out_of_fuel = out_of_fuel

-- A chain that returns a value has one at each link.
pub bind-inv {ℓ κ} :
    {A : Type ℓ} {B : Type κ} (m : Result A) (f : A → Result B) (b : B)
    → (m >>= f) ≡ ok b
    → (a : A) × (m ≡ ok a) × (f a ≡ ok b)
bind-inv (ok a) f b h = (a, refl, h)
bind-inv (err e) f b h = cc
bind-inv panicked f b h = cc
bind-inv out_of_fuel f b h = cc

pub ok_or-inv {ℓ} : {A : Type ℓ} (o : Option A) (e : Error) (a : A) → ok_or o e ≡ ok a → o ≡ some a
ok_or-inv none e a h = cc
ok_or-inv (some x) e a h = cc

-- A chain may be read from either end.
pub bind_assoc {ℓ} :
    {First Second Third : Type ℓ} (result : Result First) (rest : First → Result Second)
    (last : Second → Result Third)
    → (result >>= rest >>= last) ≡ (result >>= λ value. rest value >>= last)
bind_assoc panicked rest last = refl
bind_assoc out_of_fuel rest last = refl
bind_assoc (err message) rest last = refl
bind_assoc (ok value) rest last = refl
