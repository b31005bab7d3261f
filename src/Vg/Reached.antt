-- ===== src/Vg/Reached.antt =====
-- The groups that src/vg.rs makes: by `create`, and from there by its operations, one after the other, whether they succeed or fail.
use melvin.Prelude.{ℕ, ◌==◌, ◌≡◌, sym, ap, ◌∙◌, List, [], ◌∷◌, Bytes, ok, bind-inv}
use melvin.Prelude.Act.{settled-inv}
use mathlib.Core.Path.{subst}
use melvin.BTree.{Ord, BTreeMap, bytes_ord}
use melvin.Types.{Vg}
use melvin.Disk.{Devices}
use melvin.Util.{make_uuid}
use melvin.Vg.System.{System}
use melvin.Vg.Physical.{pv_add, create, add_all, new_vg, find_all, count_areas}
use melvin.Vg.{Areas, free_areas}
use melvin.Vg.Total.{free_areas-HavePvs}
use melvin.Vg.Around.{HavePvs}
use melvin.Vg.Written.{to_textmap-total}
use melvin.Parser.TextMap.{TextMap}
use melvin.Vg.Consistent.{IsConsistent, AreConsistent-empty}
use melvin.Vg.Text
use melvin.Vg.Preserved.{refusal-inv}
use melvin.Vg.Commands.{
  Command, add_pv, remove_pv, create_linear, create_thinpool, remove_lv, apply, perform,
  settled-perform,
}
use melvin.Vg.Acts.Kept.{
  pv_add_act-IsConsistent, pv_remove_act-IsConsistent, lv_create_linear_act-IsConsistent,
  lv_create_thinpool_act-IsConsistent, lv_remove_act-IsConsistent,
}

module _ {D : Type 0} ⦃o : Ord D⦄ where
  -- The answers of the system and the content of the devices may be others at every step; a step that
  -- fails leaves what it changed.
  pub data Reached : Vg D → Type 0 where
    created :
        (s : System D) (name : Bytes) (paths : List Bytes) (devices devices2 : Devices) (vg : Vg D)
        → create s name paths devices ≡ ok (vg, devices2)
        → Reached vg
    stepped :
        (s : System D) (c : Command) (devices : Devices) (vg : Vg D)
        → Reached vg
        → Reached (perform s c (vg, devices)).0.0

  perform-IsConsistent :
      (s : System D) (c : Command) (vg : Vg D) (devices : Devices)
      → IsConsistent vg
      → IsConsistent (perform s c (vg, devices)).0.0
  perform-IsConsistent s (add_pv path) = pv_add_act-IsConsistent s path
  perform-IsConsistent s (remove_pv pvh) = pv_remove_act-IsConsistent s pvh
  perform-IsConsistent s (create_linear name n) = lv_create_linear_act-IsConsistent s name n
  perform-IsConsistent s (create_thinpool name meta data_name) =
      lv_create_thinpool_act-IsConsistent s name meta data_name
  perform-IsConsistent s (remove_lv name) = lv_remove_act-IsConsistent s name

  -- A command that succeeds leaves what it returns.
  apply-left :
      (s : System D) (c : Command) (vg vg2 : Vg D) (devices devices2 : Devices)
      → apply s c vg devices ≡ ok (vg2, devices2)
      → (perform s c (vg, devices)).0.0 ≡ vg2
  apply-left s c vg vg2 devices devices2 h =
      ap (λ (g : Vg D × Devices). g.0)
        (settled-inv (perform s c (vg, devices)) (vg2, devices2)
          (settled-perform s c vg devices ∙ h))

  -- A step that succeeds.
  pub stepped-ok :
      (s : System D) (c : Command) (devices devices2 : Devices) (vg vg2 : Vg D)
      → Reached vg
      → apply s c vg devices ≡ ok (vg2, devices2)
      → Reached vg2
  stepped-ok s c devices devices2 vg vg2 past h =
      subst Reached (apply-left s c vg vg2 devices devices2 h) (stepped s c devices vg past)

  pv_add-IsConsistent :
      (s : System D) (path : Bytes) (vg vg2 : Vg D) (devices devices2 : Devices)
      → IsConsistent vg
      → pv_add s path vg devices ≡ ok (vg2, devices2)
      → IsConsistent vg2
  pv_add-IsConsistent s path vg vg2 devices devices2 k h =
      subst IsConsistent (apply-left s (add_pv path) vg vg2 devices devices2 h)
        (pv_add_act-IsConsistent s path vg devices k)

  add_all-IsConsistent :
      (s : System D) (paths : List Bytes) (vg vg2 : Vg D) (devices devices2 : Devices)
      → IsConsistent vg
      → add_all s paths vg devices ≡ ok (vg2, devices2)
      → IsConsistent vg2
  unfolding add_all
  add_all-IsConsistent s [] vg vg2 devices devices2 k h =
      let same_vg : vg ≡ vg2 = cc in rw (sym same_vg) k
  add_all-IsConsistent s (path ∷ paths) vg vg2 devices devices2 k h =
      let r : Vg D × Devices = (vg2, devices2) in
      let (mid, e, h1) = bind-inv (pv_add s path vg devices) _ r h in
      add_all-IsConsistent s paths mid.0 vg2 mid.1 devices2
        (pv_add-IsConsistent s path vg mid.0 devices mid.1 k e) h1

  create-IsConsistent :
      (s : System D) (name : Bytes) (paths : List Bytes) (vg : Vg D) (devices devices2 : Devices)
      → create s name paths devices ≡ ok (vg, devices2)
      → IsConsistent vg
  unfolding create
  create-IsConsistent s name [] vg devices devices2 h = cc
  create-IsConsistent s name (path ∷ paths) vg devices devices2 h =
      let r : Vg D × Devices = (vg, devices2) in
      let (pvhs, _, h1) = bind-inv (find_all s (path ∷ paths) devices) _ r h in
      let (_, h2) = refusal-inv (count_areas pvhs == 0) _ _ r h1 in
      let (id, _, h3) = bind-inv (make_uuid s.simple) _ r h2 in
      add_all-IsConsistent s (path ∷ paths) (new_vg name id) vg devices devices2 AreConsistent-empty
        h3

  -- In every group that `create` and the operations make, also where an operation fails, the keys ascend, each physical volume stands under
  -- its device, and every device that a logical volume uses is one of a physical volume of the group.
  pub IsConsistent-Reached : (vg : Vg D) → Reached vg → IsConsistent vg
  IsConsistent-Reached vg (created s name paths devices devices2 _ h) =
      create-IsConsistent s name paths vg devices devices2 h
  IsConsistent-Reached _ (stepped s c devices before past) =
      perform-IsConsistent s c before devices (IsConsistent-Reached before past)

  -- For every group that `create` and the operations make, also where an operation fails, `to_textmap` and `free_areas` return with no panic, and
  -- the devices of the free areas are physical volumes of the group.
  pub calls_succeed-Reached :
      (to_u64 : D → ℕ) (vg : Vg D)
      → Reached vg
      → ((map : TextMap) × (Text.to_textmap to_u64 vg ≡ ok map))
        × ((free : BTreeMap D Areas) × (free_areas vg ≡ ok free) × HavePvs vg.pvs free)
  calls_succeed-Reached to_u64 vg past =
      let h = IsConsistent-Reached vg past in
      (to_textmap-total to_u64 vg h, free_areas-HavePvs vg h)
