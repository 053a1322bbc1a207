-- ===== src/Fat/Tests.antt =====
-- An archive with a directory `D` and in it a file `F.T` of two clusters. A sector has 32 bytes.
use ift.Base.{
  ℕ, ◌%◌, ◌^◌, ◌≡◌, refl, true, some, List, [], ◌∷◌, ◌++◌, arith, replicate, get_or, take, write_at,
}
use ift.Fat.Path.{is_dot, is_dot_dot, break_up_path}
use ift.Fat.Path.Parts.{parts_from, resolve}
use ift.Fat.Block.{
  Bpb, bpb_of, no_err, read_boot_block, get_first_data_sector, get_cluster_chain_value,
  cluster_to_lba, fread_at, fat_table,
}
use ift.Fat.Block.Chain.{table, get_cluster_chain_value-entry}
use ift.Fat.File.{
  FatEntry, entry_at, bytes_read, read_file, cluster_size, first_cluster, cluster_offset,
}
use ift.Fat.File.Contents.{IsChain, read_file-contents}
use ift.Fat.File.Bounds.{Fits, read_file-Fits}
use ift.Fat.Name.{file_has_name, same_case}
use ift.Fat.Name.Matches.{Names, file_has_name-dot}
use ift.Fat.Find.{find_loop, is_directory, found, find_file_descriptor}
use ift.Fat.Find.Answer.{answer_path, find_file_descriptor-answer}

abbrev zeros : ℕ → List ℕ
zeros n = replicate n 0

abbrev boot : List ℕ
boot =
    zeros 11
    ++ (32 ∷ 0 ∷ 1 ∷ 3 ∷ 0 ∷ 1 ∷ [])
    ++ zeros 19
    ++ (1 ∷ 0 ∷ 0 ∷ 0 ∷ [])
    ++ zeros 4
    ++ (2 ∷ 0 ∷ 0 ∷ 0 ∷ [])
    ++ zeros 48

abbrev fat : List ℕ
fat = 0xFFFFFF8 ∷ 0xFFFFFFF ∷ 0xFFFFFF8 ∷ 0xFFFFFF8 ∷ 5 ∷ 0xFFFFFFF ∷ 0 ∷ 0 ∷ []

abbrev entry_bytes : List ℕ → ℕ → ℕ → List ℕ
entry_bytes name attr cluster = name ++ (attr ∷ []) ++ zeros 14 ++ (cluster ∷ 0 ∷ []) ++ zeros 4

abbrev spaces : ℕ → List ℕ
spaces n = replicate n b' '

abbrev directory_bytes : List ℕ
directory_bytes = entry_bytes (b'D' ∷ spaces 10) 16 3

abbrev file_bytes : List ℕ
file_bytes = entry_bytes ((b'F' ∷ spaces 7) ++ (b'T' ∷ spaces 2)) 0 4

abbrev after_fat : List ℕ
after_fat = directory_bytes ++ file_bytes ++ replicate 32 7 ++ replicate 32 8

abbrev archive : List ℕ
archive = boot ++ (table fat ++ after_fat)

abbrev block : Bpb
block = bpb_of archive

boot_read : read_boot_block (some archive) ≡ no_err block
unfolding read_boot_block
boot_read = refl

sector_found : get_first_data_sector block ≡ some 4
unfolding get_first_data_sector bpb_of
sector_found = refl

abbrev file : FatEntry
file = entry_at file_bytes

get_cluster_chain_value-entry_example :
    get_cluster_chain_value block 4 archive ≡ some (get_or fat 4 0 % 2 ^ 28)
unfolding fat_table bpb_of
get_cluster_chain_value-entry_example =
    get_cluster_chain_value-entry block boot fat after_fat 4 refl (omega arith)
      (
        omega arith,
        (
          omega arith,
          (
            omega arith,
            (omega arith, (omega arith, (omega arith, (omega arith, (omega arith, tt))))),
          ),
        ),
      )
      (omega arith)

file-IsChain : IsChain archive block 4 (first_cluster file) (5 ∷ [])
unfolding cluster_offset cluster_size bpb_of first_cluster entry_at get_cluster_chain_value
    cluster_to_lba fread_at fat_table
file-IsChain = (omega arith, refl, omega arith, (omega arith, (0xFFFFFFF, refl, omega arith)))

read_file-contents_example :
    read_file (λ n. n) archive block file (zeros 70) 40
    ≡ bytes_read 40 (write_at (zeros 70) 0 (take 40 (replicate 32 7 ++ replicate 32 8)))
unfolding cluster_offset cluster_size bpb_of first_cluster entry_at cluster_to_lba
read_file-contents_example =
    read_file-contents (λ n. n) archive block file (zeros 70) 40 4 (5 ∷ []) sector_found
      (omega arith) file-IsChain

read_file-Fits_example : Fits (zeros 70) 40 (read_file (λ n. n) archive block file (zeros 70) 40)
read_file-Fits_example = read_file-Fits (λ n. n) archive block file (zeros 70) 40

file-Names : Names file (b'F' ∷ []) (b'T' ∷ [])
unfolding entry_at
file-Names = record {
  bytes = refl;
  stem_size = omega arith;
  ext_size = omega arith;
  stem_plain = (refl, tt);
  ext_plain = (refl, tt);
  stem_trimmed = refl;
  ext_trimmed = refl;
}

file_has_name-dot_example : file_has_name file (b'.' ∷ b't' ∷ []) ≡ some true
unfolding same_case
file_has_name-dot_example =
    file_has_name-dot file (b'F' ∷ []) (b'T' ∷ []) file-Names [] (b't' ∷ []) (omega arith) tt
      (omega arith) (refl, tt) tt

-- `/d/f.t`
abbrev path : List ℕ
path = b'/' ∷ b'd' ∷ b'/' ∷ b'f' ∷ b'.' ∷ b't' ∷ []

find_file_descriptor-answer_example :
    find_file_descriptor archive block path
    ≡ answer_path archive block 4 (resolve (parts_from [] path) [])
unfolding resolve parts_from is_dot is_dot_dot
find_file_descriptor-answer_example =
    find_file_descriptor-answer archive block path 4 sector_found (omega arith)

path_found : find_file_descriptor archive block path ≡ found file
unfolding find_file_descriptor bpb_of file_has_name get_first_data_sector break_up_path is_dot
    is_dot_dot find_loop fread_at cluster_offset cluster_to_lba entry_at is_directory first_cluster
path_found = refl
