-- ===== src/Vg/Acts/Made.antt =====
-- `create` of src/vg.rs with the devices that it leaves behind, and without.
use melvin.Prelude.{
  ◌==◌, ◌≡◌, refl, ◌∙◌, List, [], ◌∷◌, Bytes, Result, ok, err, panicked, out_of_fuel,
}
use melvin.Prelude.Act.{settled, settled-bind, returned, returned-reads, returned-if}
use melvin.BTree.{Ord}
use melvin.Types.{Vg}
use melvin.Disk.{Devices}
use melvin.Util.{make_uuid}
use melvin.Vg.System.{System}
use melvin.Vg.Physical.{pv_add, add_all, create, find_all, count_areas, new_vg}
use melvin.Vg.Acts.{pv_add_act, add_all_act, made_group, create_act}
use melvin.Vg.Acts.Agree.{settled-pv_add}

module _ {D : Type 0} ⦃o : Ord D⦄ (s : System D) where
  settled-add_all :
      (paths : List Bytes) (vg : Vg D) (devices : Devices)
      → settled (add_all_act s paths (vg, devices)) ≡ add_all s paths vg devices
  unfolding add_all_act add_all
  settled-add_all [] vg devices = refl
  settled-add_all (path ∷ paths) vg devices =
      settled-bind (pv_add_act s path) (add_all_act s paths) (λ g. pv_add s path g.0 g.1)
        (λ g. add_all s paths g.0 g.1) (λ g. settled-pv_add s path g.0 g.1)
        (λ g. settled-add_all paths g.0 g.1) (vg, devices)

  returned-made_group :
      (r : (Vg D × Devices) × Result (Unit {0})) → returned (made_group r) ≡ settled r
  returned-made_group (g, ok _) = refl
  returned-made_group (g, err e) = refl
  returned-made_group (g, panicked) = refl
  returned-made_group (g, out_of_fuel) = refl

  pub returned-create :
      (name : Bytes) (paths : List Bytes) (devices : Devices)
      → returned (create_act s name paths devices) ≡ create s name paths devices
  unfolding create_act create
  returned-create name [] devices = refl
  returned-create name (path ∷ paths) devices =
      returned-reads (find_all s (path ∷ paths)) _ devices _ (λ pvhs.
        returned-if (count_areas pvhs == 0) _ _ devices refl (
          returned-reads (λ _. make_uuid s.simple) _ devices _
            (λ id.
              returned-made_group (add_all_act s (path ∷ paths) (new_vg name id, devices))
              ∙ settled-add_all (path ∷ paths) (new_vg name id) devices)))
