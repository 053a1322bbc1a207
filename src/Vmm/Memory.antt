-- ===== src/Vmm/Memory.antt =====
-- tp3/src/pm.c: the physical memory and the file behind it. A file is the list of its bytes.
pub mod Laws
pub mod Transfer
use ift.Base.{
  ℕ, suc, ◌+◌, ◌-◌, ◌*◌, ◌%◌, ◌^◌, Bool, true, false, Option, none, some, List, [], ◌∷◌, ◌++◌,
  if◌then◌else◌, length, get_elem?, ltb, ◌>>=◌, set, take, drop, replicate, write_at,
}
use ift.Vmm.Conf.{num_frames, page_frame_size, physical_memory_size, inc32}

pub record Memory : Type 0 where
  pub memory : List ℕ
  pub bitmap : List Bool
  pub backing_store : List ℕ
  pub download_count : ℕ
  pub backup_count : ℕ
  pub read_count : ℕ
  pub write_count : ℕ

unfoldable pub init : List ℕ → Memory
init store = record {
  memory = replicate physical_memory_size 0;
  bitmap = replicate num_frames false;
  backing_store = store;
  download_count = 0;
  backup_count = 0;
  read_count = 0;
  write_count = 0;
}

-- `fseek` and `fread` of one block: the bytes that the file has there
abbrev pub file_read : List ℕ → ℕ → ℕ → List ℕ
file_read store pos n = take n (drop pos store)

-- `fseek` and `fwrite`: a gap behind the end of the file reads as zeros
abbrev pub file_write : List ℕ → ℕ → List ℕ → List ℕ
file_write store pos bytes =
    let padded = store ++ replicate (pos - length store) 0 in
    take pos padded ++ (bytes ++ drop (pos + length bytes) padded)

-- the loop of `find_free_frame_number`
pub free_from : ℕ → List Bool → Option ℕ
free_from i [] = none
free_from i (used ∷ bits) = if used then free_from (suc i) bits else some i

unfoldable pub find_free_frame_number : Memory → Option ℕ
unfolding free_from
find_free_frame_number m = free_from 0 m.bitmap

unfoldable pub download_page : Memory → ℕ → ℕ → Memory
download_page m n frame = record m {
  download_count = inc32 m.download_count;
  memory =
      write_at m.memory (frame * page_frame_size % 2 ^ 32)
        (file_read m.backing_store (n * page_frame_size % 2 ^ 32) page_frame_size);
  bitmap = set m.bitmap frame true;
}

unfoldable pub backup_page : Memory → ℕ → ℕ → Memory
backup_page m frame n = record m {
  backup_count = inc32 m.backup_count;
  backing_store =
      file_write m.backing_store (n * page_frame_size % 2 ^ 32)
        (take page_frame_size (drop (frame * page_frame_size % 2 ^ 32) m.memory));
}

-- `pm_read`; an address behind `pm_memory` has no result
unfoldable pub read : Memory → ℕ → Option (ℕ × Memory)
read m address =
    get_elem? m.memory address >>= λ c. some (c, record m { read_count = inc32 m.read_count })

-- `pm_write`, likewise
unfoldable pub write : Memory → ℕ → ℕ → Option Memory
write m address c =
    if ltb address (length m.memory)
    then some (record m { write_count = inc32 m.write_count; memory = set m.memory address c })
    else none
