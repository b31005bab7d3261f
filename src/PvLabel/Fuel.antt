-- ===== src/PvLabel/Fuel.antt =====
-- On the termination of the readers of src/pvlabel.rs, and the fuel of their model.
use melvin.Prelude.{
  ℕ, zero, suc, ◌-◌, ◌+◌, ◌*◌, ◌<◌, ◌≤◌, ◌≡◌, ◌≢◌, refl, sym, ◌∙◌, ap, Bool, true, false, ◌&&◌,
  ◌==◌, leb, not, Bool-cases, inl, inr, [], ◌∷◌, List, length, length-drop, drop, slice, same, take,
  Bytes, bytes, if◌then◌else◌, Result, ok, err, panicked, out_of_fuel, ◌>>=◌, bind-ne-out_of_fuel,
  arith, none, some, Option, ok_or, io_failed, Error, label_crc, label_misplaced,
}
use melvin.BTree
use melvin.BTree.{bytes_ord}
use melvin.Crates.{Crates}
use melvin.Util.{crc32_calc, hyphenate_uuid}
use melvin.Disk.{Devices, open_file, slice_of, slice_from, read_into, zeros}
use melvin.PvLabel.{label_of, scan}
use melvin.PvLabel.Areas.{PvArea, next_area, collect_areas, iter_pv_area}
use melvin.PvLabel.Header.{extension, header_from_buf, find_on, find_in_dev}

if-ne :
    {A : Type 0} (b : Bool) (x y : Result A)
    → x ≢ out_of_fuel
    → y ≢ out_of_fuel
    → (if b then x else y) ≢ out_of_fuel
if-ne true x y h k = h
if-ne false x y h k = k

err-ne : {A : Type 0} (e : Error) → ◌≢◌ {A = Result A} (err e) out_of_fuel
err-ne e n = cc

slice_of-ne : (b : Bytes) (from to : ℕ) → slice_of b from to ≢ out_of_fuel
slice_of-ne b from to =
    if-ne (leb from to && leb to (length b)) (ok (slice b from to)) panicked (λ e. cc) (λ e. cc)

slice_from-ne : (b : Bytes) (from : ℕ) → slice_from b from ≢ out_of_fuel
slice_from-ne b from = if-ne (leb from (length b)) (ok (drop from b)) panicked (λ e. cc) (λ e. cc)

slice_from-shorter : (b rest : Bytes) → slice_from b 16 ≡ ok rest → length rest < length b
slice_from-shorter b rest h = elim (Bool-cases (leb 16 (length b))) [
  | inl fits ↦
      let cut : ◌≡◌ {A = Result Bytes} (ok (drop 16 b)) (ok rest) = ground arith in
      let same_rest : drop 16 b ≡ rest = cc in
      let len : length rest ≡ length b - 16 = sym (ap length same_rest) ∙ length-drop 16 b in
      let low : 16 ≤ length b = ground arith in omega arith
  | inr short ↦ let never : ◌≡◌ {A = Result Bytes} panicked (ok rest) = ground arith in cc
]

-- What is left behind an area has fewer than `n` bytes.
abbrev LeavesLess : ℕ → Result (Option (PvArea × Bytes)) → Type 0
LeavesLess n r = (a : PvArea) (rest : Bytes) → r ≡ ok (some (a, rest)) → length rest < n

bind-LeavesLess :
    {X : Type 0} (n : ℕ) (m : Result X) (f : X → Result (Option (PvArea × Bytes)))
    → ((x : X) → m ≡ ok x → LeavesLess n (f x))
    → LeavesLess n (m >>= f)
bind-LeavesLess n (ok x) f h a rest found = h x refl a rest found
bind-LeavesLess n (err e) f h a rest never = cc
bind-LeavesLess n panicked f h a rest never = cc
bind-LeavesLess n out_of_fuel f h a rest never = cc

if-LeavesLess :
    (n : ℕ) (b : Bool) (r : Result (Option (PvArea × Bytes)))
    → LeavesLess n r
    → LeavesLess n (if b then ok none else r)
if-LeavesLess n true r h a rest never = cc
if-LeavesLess n false r h a rest found = h a rest found

ok_or-ne : {A : Type 0} (o : Option A) (e : Error) → ok_or o e ≢ out_of_fuel
ok_or-ne none e = λ n. cc
ok_or-ne (some x) e = λ n. cc

abbrev rest_of : Bytes → Result (Option (PvArea × Bytes)) → Bytes
rest_of b (ok (some (a, rest))) = rest
rest_of b _ = b

module _ (c : Crates) where
  next_area-LeavesLess : (area : Bytes) → LeavesLess (length area) (next_area c area)
  unfolding next_area
  next_area-LeavesLess area = bind-LeavesLess (length area) (slice_of area 0 8) _ (λ b0 _.
      bind-LeavesLess (length area) (slice_of area 8 16) _ (λ b1 _.
        if-LeavesLess (length area) (c.read_u64 b0 == 0) _ (
          bind-LeavesLess (length area) (slice_from area 16) _ (λ b2 e a rest found.
            let same_rest : b2 ≡ rest = ap (rest_of []) found in
            rw (sym same_rest) (slice_from-shorter area b2 e)))))

  next_area-ne : (area : Bytes) → next_area c area ≢ out_of_fuel
  unfolding next_area
  next_area-ne area = bind-ne-out_of_fuel (slice_of area 0 8) _ (slice_of-ne area 0 8) (λ b0 _.
      bind-ne-out_of_fuel (slice_of area 8 16) _ (slice_of-ne area 8 16) (λ b1 _.
        if-ne (c.read_u64 b0 == 0) _ _ (λ e. cc)
          (bind-ne-out_of_fuel (slice_from area 16) _ (slice_from-ne area 16) (λ b2 _ e. cc))))

  -- The areas from a step of the iterator on.
  abbrev areas_from : ℕ → Option (PvArea × Bytes) → Result (List PvArea)
  areas_from f none = ok []
  areas_from f (some (a, rest)) = collect_areas c f rest >>= λ areas. ok (a ∷ areas)

  areas_from-ne :
      (f n : ℕ) (o : Option (PvArea × Bytes))
      → LeavesLess n (ok o)
      → n ≤ f
      → ((rest : Bytes) → length rest < f → collect_areas c f rest ≢ out_of_fuel)
      → areas_from f o ≢ out_of_fuel
  areas_from-ne f n none less k h = λ e. cc
  areas_from-ne f n (some (a, rest)) less k h =
      let shorter = less a rest refl in
      bind-ne-out_of_fuel (collect_areas c f rest) (λ areas. ok (a ∷ areas)) (h rest (omega arith))
        (λ areas _ e. cc)

  collect_areas-ne : (f : ℕ) (area : Bytes) → length area < f → collect_areas c f area ≢ out_of_fuel
  unfolding collect_areas
  collect_areas-ne zero area h = λ e. omega arith
  collect_areas-ne (suc f) area h =
      bind-ne-out_of_fuel (next_area c area) _ (next_area-ne area) (λ o e.
        areas_from-ne f (length area) o (rw (sym e) (next_area-LeavesLess area)) (omega arith)
          (collect_areas-ne f))

  iter_pv_area-ne : (buf : Bytes) → iter_pv_area c buf ≢ out_of_fuel
  unfolding iter_pv_area
  iter_pv_area-ne buf = collect_areas-ne (suc (length buf)) buf (omega arith)

  extension-ne : (ext_version : ℕ) (da_buf : Bytes) → extension c ext_version da_buf ≢ out_of_fuel
  unfolding extension
  extension-ne ext_version da_buf =
      if-ne (ext_version == 0) _ _ (λ e. cc)
        (bind-ne-out_of_fuel (slice_of da_buf 4 8) _ (slice_of-ne da_buf 4 8) (λ b _.
          bind-ne-out_of_fuel (slice_from da_buf 8) _ (slice_from-ne da_buf 8) (λ rest _.
            bind-ne-out_of_fuel (iter_pv_area c rest) _ (iter_pv_area-ne rest) (λ ba_vec _ e. cc))))

  header_from_buf-ne : (buf path : Bytes) → header_from_buf c buf path ≢ out_of_fuel
  unfolding header_from_buf hyphenate_uuid
  header_from_buf-ne buf path =
      bind-ne-out_of_fuel (slice_from buf 40) _ (slice_from-ne buf 40) (λ da_buf _.
        bind-ne-out_of_fuel (iter_pv_area c da_buf) _ (iter_pv_area-ne da_buf) (λ da_vec _.
          bind-ne-out_of_fuel (slice_from da_buf ((length da_vec + 1) * 16)) _
            (slice_from-ne da_buf _)
            (λ md_buf _.
              bind-ne-out_of_fuel (iter_pv_area c md_buf) _ (iter_pv_area-ne md_buf) (λ md_vec _.
                bind-ne-out_of_fuel (slice_from md_buf ((length md_vec + 1) * 16)) _
                  (slice_from-ne md_buf _)
                  (λ ext_buf _.
                    bind-ne-out_of_fuel (slice_of ext_buf 0 4) _ (slice_of-ne ext_buf 0 4) (λ b _.
                      bind-ne-out_of_fuel (extension c (c.read_u32 b) ext_buf) _
                        (extension-ne (c.read_u32 b) ext_buf)
                        (λ ext _.
                          bind-ne-out_of_fuel (slice_of buf 0 32) _ (slice_of-ne buf 0 32) (λ id _.
                            bind-ne-out_of_fuel (hyphenate_uuid id) _
                              (if-ne (leb 32 (length id)) _ _ (λ e. cc) (λ e. cc))
                              (λ uuid _.
                                bind-ne-out_of_fuel (slice_of buf 32 40) _ (slice_of-ne buf 32 40)
                                  (λ b_size _ e. cc))))))))))

  label_of-ne : (x : ℕ) (sec_buf : Bytes) → label_of c x sec_buf ≢ out_of_fuel
  unfolding label_of
  label_of-ne x sec_buf =
      if-ne (not (c.read_u32 (slice sec_buf 16 20) == crc32_calc c (slice sec_buf 20 512))) _ _
        (err-ne label_crc)
        (if-ne (not (c.read_u64 (slice sec_buf 8 16) == x)) _ _ (err-ne label_misplaced) (λ e. cc))

  scan-ne : (n x : ℕ) (buf : Bytes) → scan c n x buf ≢ out_of_fuel
  unfolding scan
  scan-ne zero x buf = λ e. cc
  scan-ne (suc n) x buf =
      bind-ne-out_of_fuel (slice_of buf (x * 512) (x * 512 + 512)) _ (slice_of-ne buf _ _)
        (λ sec_buf _.
          if-ne (same (take 8 sec_buf) (bytes "LABELONE")) _ _ (label_of-ne x sec_buf)
            (scan-ne n (x + 1) buf))

-- Looking for a header on a device ends, whatever the device holds.
pub find_in_dev-ne-out_of_fuel :
    (c : Crates) (path : Bytes) (devices : Devices) → find_in_dev c path devices ≢ out_of_fuel
unfolding find_in_dev find_on open_file
find_in_dev-ne-out_of_fuel c path devices =
    bind-ne-out_of_fuel (open_file path devices) _ (ok_or-ne (BTree.get path devices) io_failed)
      (λ f _.
        bind-ne-out_of_fuel (scan c 4 0 (read_into f 0 (zeros 2048))) _ (scan-ne c 4 0 _)
          (λ label_header _.
            bind-ne-out_of_fuel (slice_from (read_into f 0 (zeros 2048)) label_header.offset) _
              (slice_from-ne _ _) (λ pv_buf _. header_from_buf-ne c pv_buf path)))
