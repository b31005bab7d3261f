-- ===== src/Tests/Failed.antt =====
-- Operations that fail, and what they leave behind.
use melvin.Prelude.{◌⊎◌, some, lv_not_found, ℕ, ◌≡◌, refl, [], none, err, bytes, dm_failed, same}
use melvin.BTree.{bytes_ord, get, remove}
use melvin.Types.{Lv, Vg}
use melvin.Vg.{nat_ord}
use melvin.Vg.System.{System}
use melvin.Vg.Acts.{lv_remove_act}
use melvin.Vg.Acts.Lost.{IsOrNext, lv_remove_act-gone}
use melvin.Vg.Commands.{remove_lv, perform}
use melvin.Vg.Consistent.{IsConsistent}
use melvin.Vg.Reached.{stepped, IsConsistent-Reached}
use melvin.Tests.Groups.{host, with_root}
use melvin.Tests.Created.{with_root-Reached}

-- A host whose device mapper does not remove devices.
abbrev stuck_host : System ℕ
stuck_host = record host { device_remove = λ _. err dm_failed }

abbrev without_root : Vg ℕ
without_root = record with_root { lvs = [] }

-- The volume is gone from the group, and its device is not removed.
remove_root_run :
    perform stuck_host (remove_lv (bytes "root")) (with_root, [])
    ≡ ((without_root, []), err dm_failed)
unfolding lv_remove_act get remove same
remove_root_run = refl

IsConsistent-Reached_example : IsConsistent without_root
unfolding lv_remove_act get remove same
IsConsistent-Reached_example =
    IsConsistent-Reached without_root
      (stepped stuck_host (remove_lv (bytes "root")) [] with_root with_root-Reached)

lv_remove_act-gone_example :
    ((get (bytes "root") with_root.lvs ≡ none)
      × (lv_remove_act stuck_host (bytes "root") (with_root, [])
          ≡ ((with_root, []), err lv_not_found)))
    ⊎ ((lv : Lv ℕ) × (get (bytes "root") with_root.lvs ≡ some lv)
        × IsOrNext
            (record with_root { lvs = remove (bytes "root") with_root.lvs })
            (lv_remove_act stuck_host (bytes "root") (with_root, [])).0)
lv_remove_act-gone_example = lv_remove_act-gone stuck_host (bytes "root") with_root []
