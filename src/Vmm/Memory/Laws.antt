-- ===== src/Vmm/Memory/Laws.antt =====
-- The bitmap of the frames, and the transfers between the memory and the file.
use ift.Base.{
  replicate, length-replicate, refl, set, subst, ℕ, zero, suc, ◌+◌, ◌*◌, ◌%◌, ◌^◌, ◌<◌, ◌≡◌, Bool,
  true, false, none, some, List, [], ◌∷◌, arith, length, get_or, Yields, lt→ltb, length-set,
  length-write_at, some_of_lt,
}
use ift.Vmm.Conf.{num_frames, page_frame_size, physical_memory_size}
use ift.Vmm.Memory.{
  init, file_read, read, write, Memory, free_from, find_free_frame_number, backup_page,
  download_page,
}

free_from-some :
    (i : ℕ) (bits : List Bool) (f : ℕ)
    → free_from i bits ≡ some f
    → (k : ℕ) × (f ≡ i + k) × (k < length bits) × (get_or bits k true ≡ false)
unfolding free_from
free_from-some i [] f h = absurd (ground arith)
free_from-some i (true ∷ bits) f h =
    let (k, at, inside, free) = free_from-some (suc i) bits f h in
    (suc k, omega arith, omega arith, free)
free_from-some i (false ∷ bits) f h = (0, ground arith, omega arith, ground arith)

free_from-none :
    (i : ℕ) (bits : List Bool) (k : ℕ)
    → free_from i bits ≡ none
    → k < length bits
    → get_or bits k false ≡ true
unfolding free_from
free_from-none i [] k h lt = absurd (omega arith)
free_from-none i (true ∷ bits) zero h lt = ground arith
free_from-none i (true ∷ bits) (suc k) h lt = free_from-none (suc i) bits k h (omega arith)
free_from-none i (false ∷ bits) k h lt = absurd (ground arith)

pub find_free-some :
    (m : Memory) (f : ℕ)
    → find_free_frame_number m ≡ some f
    → (f < length m.bitmap) × (get_or m.bitmap f true ≡ false)
unfolding find_free_frame_number
find_free-some m f h =
    let (k, at, inside, free) = free_from-some 0 m.bitmap f h in
    let e : k ≡ f = omega arith in (omega arith, subst (λ j. get_or m.bitmap j true ≡ false) e free)

pub find_free-none :
    (m : Memory) (f : ℕ)
    → find_free_frame_number m ≡ none
    → f < length m.bitmap
    → get_or m.bitmap f false ≡ true
unfolding find_free_frame_number
find_free-none m f h lt = free_from-none 0 m.bitmap f h lt

pub bitmap-backup : (m : Memory) (f n : ℕ) → (backup_page m f n).bitmap ≡ m.bitmap
unfolding backup_page
bitmap-backup m f n = refl

pub bitmap-download : (m : Memory) (n f : ℕ) → (download_page m n f).bitmap ≡ set m.bitmap f true
unfolding download_page
bitmap-download m n f = refl

pub bitmap-init : (store : List ℕ) → (init store).bitmap ≡ replicate num_frames false
unfolding init
bitmap-init store = refl

-- The arrays keep their sizes, and the bitmap its bits.
pub record Alike (m m' : Memory) : Type 0 where
  pub bitmap : m'.bitmap ≡ m.bitmap
  pub memory_sized : length m'.memory ≡ length m.memory

pub read-Alike : (m : Memory) (a : ℕ) → a < length m.memory → Yields (λ r. Alike m r.1) (read m a)
unfolding read
read-Alike m a lt =
    let (c, e) = some_of_lt m.memory a lt in
    rw (e, Yields) (record { bitmap = refl; memory_sized = refl })

pub write-Alike : (m : Memory) (a c : ℕ) → a < length m.memory → Yields (Alike m) (write m a c)
unfolding write
write-Alike m a c lt =
    rw (lt→ltb a (length m.memory) lt, Yields)
      (record { bitmap = refl; memory_sized = length-set m.memory a c })

pub length-download : (m : Memory) (n f : ℕ) → length (download_page m n f).memory ≡ length m.memory
unfolding download_page
length-download m n f =
    length-write_at m.memory (f * page_frame_size % 2 ^ 32)
      (file_read m.backing_store (n * page_frame_size % 2 ^ 32) page_frame_size)

pub memory-backup : (m : Memory) (f n : ℕ) → (backup_page m f n).memory ≡ m.memory
unfolding backup_page
memory-backup m f n = refl

pub memory-init : (store : List ℕ) → length (init store).memory ≡ physical_memory_size
unfolding init
memory-init store = length-replicate {A = ℕ} physical_memory_size 0
