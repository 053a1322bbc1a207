-- ===== src/Fat/Block.antt =====
-- tp4/src/main.c and tp4/src/main.h: the boot block, sectors, and the chain of clusters. An archive is
-- the list of its bytes. Each `fread` follows an `fseek` from its start, which does not fail, so the
-- position is not kept. `malloc` is taken to succeed.
pub mod Chain
use ift.Base.{
  ℕ, ◌+◌, ◌-◌, ◌*◌, ◌/◌, ◌%◌, ◌^◌, Bool, ◌&&◌, Option, none, some, List, ltb, leb, ◌==◌,
  if◌then◌else◌, length, take, drop, get_or,
}

abbrev pub uint32 : ℕ → ℕ
uint32 n = n % 2 ^ 32

abbrev pub byte_at : List ℕ → ℕ → ℕ
byte_at x i = get_or x i 0

-- an `int`
unfoldable pub as_uint16 : List ℕ → ℕ
as_uint16 x = byte_at x 1 * 256 + byte_at x 0

unfoldable pub as_uint32 : List ℕ → ℕ
as_uint32 x =
    uint32
      (uint32 (uint32 (byte_at x 3 * 256 + byte_at x 2) * 256 + byte_at x 1) * 256 + byte_at x 0)

-- `BPB`, of the size 90
pub record Bpb : Type 0 where
  pub bs_jmp_boot : List ℕ
  pub bs_oem_name : List ℕ
  pub bpb_byts_per_sec : List ℕ
  pub bpb_sec_per_clus : ℕ
  pub bpb_rsvd_sec_cnt : List ℕ
  pub bpb_num_fats : ℕ
  pub bpb_root_ent_cnt : List ℕ
  pub bpb_tot_sec16 : List ℕ
  pub bpb_media : ℕ
  pub bpb_fat_sz16 : List ℕ
  pub bpb_sec_per_trk : List ℕ
  pub bpb_num_heads : List ℕ
  pub bpb_hidd_sec : List ℕ
  pub bpb_tot_sec32 : List ℕ
  pub bpb_fat_sz32 : List ℕ
  pub bpb_ext_flags : List ℕ
  pub bpb_fs_ver : List ℕ
  pub bpb_root_clus : List ℕ
  pub bpb_fs_info : List ℕ
  pub bpb_bk_boot_sec : List ℕ
  pub bpb_reserved : List ℕ
  pub bs_drv_num : ℕ
  pub bs_reserved1 : ℕ
  pub bs_boot_sig : ℕ
  pub bs_vol_id : List ℕ
  pub bs_vol_lab : List ℕ
  pub bs_fil_sys_type : List ℕ

abbrev field : List ℕ → ℕ → ℕ → List ℕ
field bytes offset size = take size (drop offset bytes)

-- the structure over its bytes
unfoldable pub bpb_of : List ℕ → Bpb
bpb_of bytes = record {
  bs_jmp_boot = field bytes 0 3;
  bs_oem_name = field bytes 3 8;
  bpb_byts_per_sec = field bytes 11 2;
  bpb_sec_per_clus = byte_at bytes 13;
  bpb_rsvd_sec_cnt = field bytes 14 2;
  bpb_num_fats = byte_at bytes 16;
  bpb_root_ent_cnt = field bytes 17 2;
  bpb_tot_sec16 = field bytes 19 2;
  bpb_media = byte_at bytes 21;
  bpb_fat_sz16 = field bytes 22 2;
  bpb_sec_per_trk = field bytes 24 2;
  bpb_num_heads = field bytes 26 2;
  bpb_hidd_sec = field bytes 28 4;
  bpb_tot_sec32 = field bytes 32 4;
  bpb_fat_sz32 = field bytes 36 4;
  bpb_ext_flags = field bytes 40 2;
  bpb_fs_ver = field bytes 42 2;
  bpb_root_clus = field bytes 44 4;
  bpb_fs_info = field bytes 48 2;
  bpb_bk_boot_sec = field bytes 50 2;
  bpb_reserved = field bytes 52 12;
  bs_drv_num = byte_at bytes 64;
  bs_reserved1 = byte_at bytes 65;
  bs_boot_sig = byte_at bytes 66;
  bs_vol_id = field bytes 67 4;
  bs_vol_lab = field bytes 71 11;
  bs_fil_sys_type = field bytes 82 8;
}

-- `fread` of one element at an offset: it returns 0 for the size 0 and past the end.
unfoldable pub fread_at : List ℕ → ℕ → ℕ → Option (List ℕ)
fread_at archive offset size =
    if ltb 0 size && leb (offset + size) (length archive)
    then some (take size (drop offset archive))
    else none

-- `NULL` is the archive that is `none`.
pub data BootBlock : Type 0 where
  no_err : Bpb → BootBlock
  bad_argument read_error : BootBlock

unfoldable pub boot_of : Option (List ℕ) → BootBlock
unfolding bpb_of
boot_of none = read_error
boot_of (some bytes) = no_err (bpb_of bytes)

unfoldable pub read_boot_block : Option (List ℕ) → BootBlock
unfolding boot_of fread_at
read_boot_block none = bad_argument
read_boot_block (some archive) = boot_of (fread_at archive 0 90)

unfoldable pub cluster_to_lba : Bpb → ℕ → ℕ → ℕ
cluster_to_lba block cluster first_data_sector =
    uint32 (first_data_sector + uint32 (cluster + (2 ^ 32 - 2)) * block.bpb_sec_per_clus)

-- `none` is a division by zero.
unfoldable pub get_first_data_sector : Bpb → Option ℕ
unfolding as_uint16 as_uint32
get_first_data_sector block =
    let bytes_per_sector = as_uint16 block.bpb_byts_per_sec in
    let root_dir_sectors =
      (as_uint16 block.bpb_root_ent_cnt * 32 + (bytes_per_sector - 1)) / bytes_per_sector in
    let fat_table_sectors = uint32 (block.bpb_num_fats * as_uint32 block.bpb_fat_sz32) in
    if bytes_per_sector == 0
    then none
    else some (uint32 (as_uint16 block.bpb_rsvd_sec_cnt + fat_table_sectors + root_dir_sectors))

-- `fat_table`, which the code computes in `int`
unfoldable pub fat_table : Bpb → ℕ
unfolding as_uint16
fat_table block =
    uint32
      (as_uint16 block.bpb_rsvd_sec_cnt * block.bpb_sec_per_clus * as_uint16 block.bpb_byts_per_sec)

-- The entry of a cluster, or `GENERAL_ERR`.
unfoldable pub entry_of : Option (List ℕ) → Option ℕ
unfolding as_uint32
entry_of none = none
entry_of (some bytes) = some (as_uint32 bytes % 2 ^ 28)

unfoldable pub get_cluster_chain_value : Bpb → ℕ → List ℕ → Option ℕ
unfolding entry_of
get_cluster_chain_value block cluster archive =
    entry_of (fread_at archive (uint32 (fat_table block + cluster * 4)) 4)
