-- ===== src/Vg/Acts/Lost.antt =====
-- What every outcome of `lv_remove` of src/vg.rs leaves of the group.
use melvin.Prelude.{
  true, ◌≡◌, ◌⊎◌, inl, inr, refl, none, some, Bytes, err, lv_not_found, Option-cases,
}
use melvin.Prelude.Act.{kept-reads}
use melvin.BTree.{Ord, bytes_ord, remove, get}
use melvin.Types.{Lv, Vg}
use melvin.Disk.{Devices}
use melvin.Vg.System.{System}
use melvin.Vg.Text
use melvin.Vg.Commit.{next_seqno}
use melvin.Vg.Acts.{commit_act, lv_remove_act}

module _ {D : Type 0} ⦃o : Ord D⦄ where
  -- A group, or its next generation.
  abbrev pub IsOrNext : Vg D → Vg D × Devices → Type 0
  IsOrNext vg (vg2, _) = (vg2 ≡ vg) ⊎ (vg2 ≡ next_seqno vg)

  commit_act-IsOrNext :
      (s : System D) (vg : Vg D) (devices : Devices) → IsOrNext vg (commit_act s (vg, devices)).0
  unfolding commit_act
  commit_act-IsOrNext s vg devices =
      kept-reads (IsOrNext vg) (λ _. Text.to_textmap s.to_u64 (next_seqno vg)) _
        (next_seqno vg, devices) (inr refl) (λ map e. inr refl)

  -- Whatever the answers of the system are, and however `lv_remove` ends, with an error or a panic of any
  -- step too: if the group has no volume `name`, the call fails and leaves the group and the devices
  -- alone; if it has one, the group that is left is the one without the volume, in its generation or the
  -- next.
  pub lv_remove_act-gone :
      (s : System D) (name : Bytes) (vg : Vg D) (devices : Devices)
      → ((get name vg.lvs ≡ none)
          × (lv_remove_act s name (vg, devices) ≡ ((vg, devices), err lv_not_found)))
        ⊎ ((lv : Lv D) × (get name vg.lvs ≡ some lv)
            × IsOrNext
                (record vg { lvs = remove name vg.lvs })
                (lv_remove_act s name (vg, devices)).0)
  unfolding lv_remove_act
  lv_remove_act-gone s name vg devices = elim (Option-cases (get name vg.lvs)) [
    | inl missing ↦ inl (missing, rw missing refl)
    | inr (lv, there) ↦
        let vg2 = record vg { lvs = remove name vg.lvs } in
        let Left = IsOrNext vg2 in
        let here : Left (vg2, devices) = inl refl in
        inr (
          lv,
          there,
          rw there (
              kept-reads Left (λ _. s.dm_new) _ (vg2, devices) here
                (λ _ _.
                  kept-reads Left (λ _. s.dm_name lv.name) _ (vg2, devices) here
                    (λ dm_name _.
                      kept-reads Left (λ _. s.device_suspend dm_name true) _ (vg2, devices) here
                        (λ _ _.
                          kept-reads Left (λ _. s.device_remove dm_name) _ (vg2, devices) here
                            (λ _ _. commit_act-IsOrNext s vg2 devices))))),
        )
  ]
