-- ===== src/Vmm/Memory/Transfer.antt =====
-- A page that is saved and loaded again.
use ift.Base.{
  ℕ, ◌+◌, ◌-◌, ◌*◌, ◌%◌, ◌^◌, ◌<◌, ◌≡◌, refl, ap, ◌∙◌, List, ◌++◌, arith, length, length-append,
  length-replicate, length-take, length-drop, take, drop, replicate, take-append, drop-append,
  get_or, get_or-take, get_or-drop, get_or-write_at, leb, ltb, if◌then◌else◌, ◌&&◌, Bool-cases, inl,
  inr, true,
}
use ift.Vmm.Conf.{num_frames, num_pages, page_frame_size, physical_memory_size}
use ift.Vmm.Memory.{Memory, file_read, file_write, download_page, backup_page}

-- What is written to a file at a position is read there.
file_read-write :
    (store : List ℕ) (pos : ℕ) (bytes : List ℕ)
    → file_read (file_write store pos bytes) pos (length bytes) ≡ bytes
file_read-write store pos bytes =
    let padded = store ++ replicate (pos - length store) 0 in
    let long : pos ≡ length (take pos padded) = omega (
      arith,
      length-take pos padded,
      length-append store (replicate (pos - length store) 0),
      length-replicate {A = ℕ} (pos - length store) 0,
    ) in
    let rest = drop (pos + length bytes) padded in
    ap (take (length bytes)) (drop-append (take pos padded) (bytes ++ rest) pos long)
    ∙ take-append bytes rest (length bytes) refl

in_window : (a n j : ℕ) → (leb a j && ltb j (a + n)) ≡ true → j - a < n
in_window a n j h = ground arith

-- A frame that is saved to a page and loaded into any frame comes back byte for byte, and the
-- memory outside that frame stays as it was.
pub download-backup :
    (m : Memory) (f n g j : ℕ)
    → length m.memory ≡ physical_memory_size
    → f < num_frames
    → g < num_frames
    → n < num_pages
    → get_or (download_page (backup_page m f n) n g).memory j 0 ≡ (
        if leb (g * page_frame_size) j && ltb j (g * page_frame_size + page_frame_size)
        then get_or m.memory (f * page_frame_size + (j - g * page_frame_size)) 0
        else get_or m.memory j 0)
unfolding download_page backup_page
download-backup m f n g j sized hf hg hn =
    let bytes = take page_frame_size (drop (f * page_frame_size) m.memory) in
    let whole : page_frame_size ≡ length bytes = omega (
      arith,
      length-take page_frame_size (drop (f * page_frame_size) m.memory),
      length-drop (f * page_frame_size) m.memory,
      sized,
    ) in
    let at_f : f * page_frame_size % 2 ^ 32 ≡ f * page_frame_size = omega arith in
    let at_g : g * page_frame_size % 2 ^ 32 ≡ g * page_frame_size = omega arith in
    let back =
      ap
        (file_read (file_write m.backing_store (n * page_frame_size % 2 ^ 32) bytes)
          (n * page_frame_size % 2 ^ 32))
        whole
      ∙ file_read-write m.backing_store (n * page_frame_size % 2 ^ 32) bytes in
    rw
      (
        at_f,
        at_g,
        back,
        get_or-write_at m.memory (g * page_frame_size) bytes j 0 (omega (arith, sized, whole)),
        ← whole,
      )
      (elim (Bool-cases
        (leb (g * page_frame_size) j && ltb j (g * page_frame_size + page_frame_size))) [
          | inr outside ↦ rw outside
          | inl inside ↦ rw inside (
              get_or-take page_frame_size (drop (f * page_frame_size) m.memory)
                (j - g * page_frame_size) 0
                (in_window (g * page_frame_size) page_frame_size j inside)
              ∙ get_or-drop (f * page_frame_size) m.memory (j - g * page_frame_size) 0)
        ])
