-- ===== src/Fat/File.antt =====
-- tp4/src/main.c: the contents of a file. The buffer holds `max_len` bytes at least, and the number of
-- bytes read fits in the `int` that it is returned as.
pub mod Contents
pub mod Slices
pub mod Bounds
use ift.Base.{
  ℕ, zero, suc, ◌+◌, ◌-◌, ◌*◌, ◌%◌, ◌^◌, min, Option, none, some, List, leb, if◌then◌else◌, take,
  drop, write_at,
}
use mathlib.Core.Option
use ift.Fat.Block.{
  Bpb, as_uint16, uint32, byte_at, fread_at, cluster_to_lba, get_first_data_sector,
  get_cluster_chain_value,
}

-- `FAT_entry`, of the size 32
pub record FatEntry : Type 0 where
  pub dir_name : List ℕ
  pub dir_attr : ℕ
  pub dir_nt_res : ℕ
  pub dir_crt_time_tenth : ℕ
  pub dir_crt_time : List ℕ
  pub dir_crt_date : List ℕ
  pub dir_lst_acc_date : List ℕ
  pub dir_fst_clus_hi : List ℕ
  pub dir_wrt_time : List ℕ
  pub dir_wrt_date : List ℕ
  pub dir_fst_clus_lo : List ℕ
  pub dir_file_size : List ℕ

abbrev field : List ℕ → ℕ → ℕ → List ℕ
field bytes offset size = take size (drop offset bytes)

unfoldable pub entry_at : List ℕ → FatEntry
entry_at bytes = record {
  dir_name = field bytes 0 11;
  dir_attr = byte_at bytes 11;
  dir_nt_res = byte_at bytes 12;
  dir_crt_time_tenth = byte_at bytes 13;
  dir_crt_time = field bytes 14 2;
  dir_crt_date = field bytes 16 2;
  dir_lst_acc_date = field bytes 18 2;
  dir_fst_clus_hi = field bytes 20 2;
  dir_wrt_time = field bytes 22 2;
  dir_wrt_date = field bytes 24 2;
  dir_fst_clus_lo = field bytes 26 2;
  dir_file_size = field bytes 28 4;
}

-- The shift is one of an `int`.
unfoldable pub first_cluster : FatEntry → ℕ
unfolding as_uint16
first_cluster entry =
    uint32 (as_uint16 entry.dir_fst_clus_hi * 2 ^ 16 + as_uint16 entry.dir_fst_clus_lo)

-- the offset of the bytes of a cluster
unfoldable pub cluster_offset : Bpb → ℕ → ℕ → ℕ
cluster_offset block first_data_sector cluster =
    uint32 (cluster_to_lba block cluster first_data_sector * as_uint16 block.bpb_byts_per_sec)

unfoldable pub cluster_size : Bpb → ℕ
cluster_size block = block.bpb_sec_per_clus * as_uint16 block.bpb_byts_per_sec

-- The number of bytes read with the buffer, or how it fails.
pub data ReadFile : Type 0 where
  bytes_read : ℕ → List ℕ → ReadFile
  general_err : ReadFile
  divides_by_zero : ReadFile
  out_of_fuel : ReadFile

-- The error of the call is not looked at: `torn` is what it leaves in the value that it was to set,
-- which C leaves open.
unfoldable pub next_cluster : (ℕ → ℕ) → List ℕ → Bpb → ℕ → ℕ
next_cluster torn archive block cluster =
    Option.get_or (get_cluster_chain_value block cluster archive) (torn cluster)

module _ (torn : ℕ → ℕ) (archive : List ℕ) (block : Bpb) (first_data_sector max_len : ℕ) where
  -- the loop, with the number of bytes read and the current cluster
  unfoldable pub read_loop : ℕ → List ℕ → ℕ → ℕ → ReadFile
  read_loop zero buff n cluster = out_of_fuel
  read_loop (suc fuel) buff n cluster =
      let to_read = min (cluster_size block) (max_len - n) in
      let next = next_cluster torn archive block cluster in
      let turn : ReadFile =
        elim (fread_at archive (cluster_offset block first_data_sector cluster) to_read) [
          | none ↦ general_err
          | some bytes ↦
              let rest = read_loop fuel (write_at buff n bytes) (n + to_read) next in
              if leb 0xFFFFFF8 next then bytes_read (n + to_read) (write_at buff n bytes) else rest
        ] in
      if leb max_len n then bytes_read n buff else turn

-- Each turn but the last reads a byte at least.
unfoldable pub read_from : (ℕ → ℕ) → List ℕ → Bpb → FatEntry → List ℕ → ℕ → Option ℕ → ReadFile
read_from torn archive block entry buff max_len none = divides_by_zero
read_from torn archive block entry buff max_len (some first_data_sector) =
    read_loop torn archive block first_data_sector max_len (suc max_len) buff 0
      (first_cluster entry)

unfoldable pub read_file : (ℕ → ℕ) → List ℕ → Bpb → FatEntry → List ℕ → ℕ → ReadFile
unfolding read_from
read_file torn archive block entry buff max_len =
    read_from torn archive block entry buff max_len (get_first_data_sector block)
