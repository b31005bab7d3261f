-- ===== src/Vg/Preserved.antt =====
-- What a commit of src/vg.rs returns, and how a call that returns a group went.
use melvin.Prelude.{
  ℕ, ◌≡◌, refl, ap, Bool, true, false, if◌then◌else◌, some, Bytes, arith, Result, ok, err, panicked,
  bind-inv, Error,
}
use melvin.BTree.{Ord, bytes_ord, get, contains_key, values}
use melvin.Types.{Pv, Vg}
use melvin.Disk.{Devices}
use melvin.PvLabel.Areas.{PvArea}
use melvin.PvLabel.Header.{PvHeader}
use melvin.Vg.System.{System}
use melvin.Vg.Commit.{commit, next_seqno, disk_map, commit_pvs}
use melvin.Vg.Physical.{volume_of, any_segment}
use melvin.Vg.Logical.{new_lv, linear_segment}
use melvin.BTree.Laws.{contains_key-get}
use melvin.Lv.Segments.{pv_dependencies}
use melvin.Vg.Text

module _ {D : Type 0} ⦃o : Ord D⦄ where
  -- What a commit returns.
  pub commit-next :
      (s : System D) (vg vg2 : Vg D) (devices devices2 : Devices)
      → commit s vg devices ≡ ok (vg2, devices2)
      → next_seqno vg ≡ vg2
  unfolding commit
  commit-next s vg vg2 devices devices2 h =
      let (map, _, h2) = bind-inv (Text.to_textmap s.to_u64 (next_seqno vg)) _ (vg2, devices2) h in
      let (devices1, _, h3) =
        bind-inv (commit_pvs s (disk_map s vg.name map) (values vg.pvs) devices) _ (vg2, devices2)
          h2 in
      ap (group_of vg) h3
    where
      group_of : Vg D → Result (Vg D × Devices) → Vg D
      group_of v (ok (w, ds)) = w
      group_of v _ = v

  pub refusal-inv :
      (b : Bool) (e : Error) (m : Result (Vg D × Devices)) (r : Vg D × Devices)
      → (if b then err e else m) ≡ ok r
      → (b ≡ false) × (m ≡ ok r)
  refusal-inv true e m r h = cc
  refusal-inv false e m r h = (refl, h)

  pub panic-inv :
      (b : Bool) (m : Result (Vg D × Devices)) (r : Vg D × Devices)
      → (if b then panicked else m) ≡ ok r
      → m ≡ ok r
  panic-inv true m r h = cc
  panic-inv false m r h = h

  pub named-volume_of :
      (pvh : PvHeader) (dev : D) (da : PvArea) (n : ℕ) → (volume_of pvh dev da n).device ≡ dev
  unfolding volume_of
  named-volume_of pvh dev da n = refl

  -- A new linear volume stands on the device that the search found.
  pub linear-stands :
      (vg : Vg D) (dev e : D) (s : System D) (name id : Bytes) (start n : ℕ)
      → (pv : Pv D) × (get dev vg.pvs ≡ some pv)
      → any_segment e (new_lv s name id (linear_segment dev start n)).segments ≡ true
      → contains_key e vg.pvs ≡ true
  unfolding pv_dependencies
  linear-stands vg dev e s name id start n (pv, at) used =
      ground (arith, o.eq_iff dev e, contains_key-get e vg.pvs, at)
