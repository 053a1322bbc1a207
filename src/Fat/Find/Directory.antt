-- ===== src/Fat/Find/Directory.antt =====
-- What the search finds, said level by level on the lists of the entries of the directories.
pub mod Lookup
use ift.Base.{
  ℕ, zero, suc, ◌+◌, Bool, true, false, Option, none, some, List, [], ◌∷◌, if◌then◌else◌, length,
}
use ift.Fat.Block.{Bpb, fread_at}
use ift.Fat.File.{FatEntry, entry_at, first_cluster, cluster_offset}
use ift.Fat.Name.{file_has_name}
use ift.Fat.Find.{Find, found, general_err, crash, is_directory, is_last}

pub data Match : Type 0 where
  hit : FatEntry → Match
  absent overflow : Match

-- The first entry that has the name, before the one that is last.
unfoldable pub first_match : List FatEntry → List ℕ → Match
first_match [] name = absent
first_match (entry ∷ entries) name =
    let rest = first_match entries name in
    elim (file_has_name entry name) [
      | none ↦ overflow
      | some true ↦ hit entry
      | some false ↦ if is_last entry then absent else rest
    ]

module _ (archive : List ℕ) (block : Bpb) (first_data_sector : ℕ) where
  -- up to `n` entries from an offset of the archive on
  unfoldable pub entries_from : ℕ → ℕ → List FatEntry
  entries_from zero offset = []
  entries_from (suc n) offset = elim (fread_at archive offset 32) [
    | none ↦ []
    | some bytes ↦ entry_at bytes ∷ entries_from n (offset + 32)
  ]

  -- the entries from the cluster of a directory to the end of the archive
  abbrev pub directory : ℕ → List FatEntry
  directory cluster = entries_from (length archive) (cluster_offset block first_data_sector cluster)

  -- `names` are the levels below the one of the entry.
  unfoldable pub descend : Match → List (List ℕ) → Find
  descend absent names = general_err
  descend overflow names = crash
  descend (hit entry) [] = found entry
  descend (hit entry) (name ∷ names) =
      let inside = descend (first_match (directory (first_cluster entry)) name) names in
      if is_directory entry then inside else general_err
