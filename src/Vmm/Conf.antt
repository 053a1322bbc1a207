-- ===== src/Vmm/Conf.antt =====
-- tp3/src/conf.h: the sizes of the virtual memory, and the counters' arithmetic.
use ift.Base.{ℕ, ◌+◌, ◌*◌, ◌%◌, ◌^◌}

abbrev pub num_frames : ℕ
num_frames = 32

abbrev pub num_pages : ℕ
num_pages = 256

abbrev pub page_frame_size : ℕ
page_frame_size = 256

abbrev pub tlb_num_entries : ℕ
tlb_num_entries = 8

abbrev pub physical_memory_size : ℕ
physical_memory_size = num_frames * page_frame_size

-- `counter++` on an `unsigned int`
abbrev pub inc32 : ℕ → ℕ
inc32 n = (n + 1) % 2 ^ 32
