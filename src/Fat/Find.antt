-- ===== src/Fat/Find.antt =====
-- tp4/src/main.c: the entry of a path. `int i` does not overflow in archives below 2 GB.
pub mod Directory
pub mod Answer
use ift.Base.{
  ℕ, zero, suc, ◌+◌, ◌*◌, ◌/◌, ◌%◌, ◌^◌, Bool, true, false, Option, none, some, List, ◌==◌,
  if◌then◌else◌, length, get_or,
}
use ift.Fat.Path.{part, bad_path, no_level, Broken, break_up_path}
use ift.Fat.Block.{Bpb, as_uint32, fread_at, get_first_data_sector}
use ift.Fat.File.{FatEntry, entry_at, first_cluster, cluster_offset}
use ift.Fat.Name.{file_has_name}

-- The entry, or how it fails: a crash is a name that is NULL or overflows its array, or a division
-- by zero.
pub data Find : Type 0 where
  found : FatEntry → Find
  general_err crash out_of_fuel : Find

-- `DIR_Attr & 0x10`
unfoldable pub is_directory : FatEntry → Bool
is_directory entry = entry.dir_attr / 16 % 2 == 1

-- `DIR_Name[0] == 0x00`
unfoldable pub is_last : FatEntry → Bool
is_last entry = get_or entry.dir_name 0 0 == 0

module _ (archive : List ℕ) (block : Bpb) (path : List ℕ) (first_data_sector : ℕ) where
  -- the loop; the level of a name is a byte
  unfoldable pub find_loop : ℕ → ℕ → ℕ → ℕ → List ℕ → Find
  find_loop zero root_lba i depth name = out_of_fuel
  find_loop (suc fuel) root_lba i depth name = elim (fread_at archive (root_lba + i * 32) 32) [
    | none ↦ general_err
    | some bytes ↦
        let entry = entry_at bytes in
        let next = find_loop fuel root_lba (suc i) depth name in
        elim (file_has_name entry name) [
          | none ↦ crash
          | some false ↦ if is_last entry then general_err else next
          | some true ↦ elim (break_up_path path (suc depth % 2 ^ 8)) [
            | no_level ↦ found entry
            | bad_path ↦ general_err
            | part name' ↦
                let inside =
                  find_loop fuel (cluster_offset block first_data_sector (first_cluster entry)) 0
                    (suc depth) name' in
                if is_directory entry then inside else general_err
          ]
        ]
  ]

  -- the first part of the path, and the loop
  unfoldable pub find_from : ℕ → Broken → Find
  find_from root_lba (part name) = find_loop (suc (256 * suc (length archive))) root_lba 0 0 name
  find_from root_lba bad_path = general_err
  find_from root_lba no_level = elim (fread_at archive root_lba 32) [
    | none ↦ general_err
    | some bytes ↦ crash
  ]

unfoldable pub find_with : List ℕ → Bpb → List ℕ → Option ℕ → Find
unfolding find_from as_uint32
find_with archive block path none = crash
find_with archive block path (some first_data_sector) =
    find_from archive block path first_data_sector
      (cluster_offset block first_data_sector (as_uint32 block.bpb_root_clus))
      (break_up_path path 0)

unfoldable pub find_file_descriptor : List ℕ → Bpb → List ℕ → Find
unfolding find_with
find_file_descriptor archive block path = find_with archive block path (get_first_data_sector block)
