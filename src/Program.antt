-- ===== src/Program.antt =====
-- src/main.rs: the program that prints the headers of the devices and the metadata of the first group.
-- `read_dir` and `stat` are what the directories and the files in them are, as for `pvheader_scan`; what
-- the program prints is a list of lines.
pub mod Created
use melvin.Prelude.{
  ℕ, List, [], ◌∷◌, ◌++◌, Option, none, some, Bytes, bytes, Result, ok, err, panicked, out_of_fuel,
  ◌>>=◌, expect, no_volume_group,
}
use melvin.Crates.{Crates}
use melvin.Disk.{Devices}
use melvin.PvLabel.Header.{PvHeader, find_in_dev, pvheader_scan}
use melvin.PvLabel.Mda.Text.{read_metadata}
use melvin.Parser.TextMap.{Entry, TextMap, empty, bind}
use melvin.Parser.Reader.{buf_to_textmap}

-- What one `println!` prints: its value in the `Debug` format.
pub data Line : Type 0 where
  pvheader : Bytes → Line
  hdr : PvHeader → Line
  name_map : Bytes → TextMap → Line

-- The lines that were printed, and how the program went on.
abbrev pub Printed : Type 0
Printed = List Line × Result (Unit {0})

-- `for (key, value) in map`: the first section.
unfoldable pub first_textmap : TextMap → Option (Bytes × TextMap)
first_textmap empty = none
first_textmap (bind key (Entry.text_map x) map) = some (key, x)
first_textmap (bind key _ map) = first_textmap map

abbrev dev_dirs : List Bytes
dev_dirs = bytes "/dev" ∷ []

-- `f()?` where `f` prints nothing: what is printed before stays printed.
abbrev behind : {A : Type 0} → List Line → Result A → (A → Printed) → Printed
behind lines (ok a) next = (lines ++ (next a).0, (next a).1)
behind lines (err e) next = (lines, err e)
behind lines panicked next = (lines, panicked)
behind lines out_of_fuel next = (lines, out_of_fuel)

module _ (c : Crates) (devices : Devices) where
  print_each : List Bytes → Printed
  print_each [] = ([], ok tt)
  print_each (path ∷ paths) =
      let rest = print_each paths in
      behind (pvheader path ∷ []) (find_in_dev c path devices) (λ pvh. (hdr pvh ∷ rest.0, rest.1))

  first_in : List Bytes → Result (Bytes × TextMap)
  unfolding first_textmap
  first_in [] = err no_volume_group
  first_in (pv_path ∷ pv_paths) =
      let rest = first_in pv_paths in
      find_in_dev c pv_path devices >>= λ pvh.
      read_metadata c pvh.dev_path pvh.metadata_areas devices >>= λ map. elim (first_textmap map) [
        | none ↦ rest
        | some found ↦ ok found
      ]

  module _ (read_dir : Bytes → Result (List Bytes)) (stat : Bytes → Option ℕ) where
    unfoldable pub print_pvheaders : Printed
    unfolding print_each
    print_pvheaders = behind [] (pvheader_scan c read_dir stat devices dev_dirs) print_each

    unfoldable pub get_first_vg_meta : Result (Bytes × TextMap)
    unfolding first_in
    get_first_vg_meta = pvheader_scan c read_dir stat devices dev_dirs >>= first_in

    unfoldable pub main : Printed
    unfolding print_pvheaders get_first_vg_meta
    main =
        behind print_pvheaders.0 print_pvheaders.1 (λ _.
          behind [] (expect get_first_vg_meta) (λ (name, map). (name_map name map ∷ [], ok tt)))

-- `read_file` opens the file and reads it to its end.
unfoldable pub get_conf : (Bytes → Result Bytes) → Result TextMap
get_conf read_file = read_file (bytes "/etc/lvm/lvm.conf") >>= buf_to_textmap
