-- ===== src/Fat/File/Bounds.antt =====
-- The loop of `read_file` ends, inside the buffer.
use ift.Base.{
  ℕ, zero, suc, ◌+◌, ◌-◌, ◌≤◌, ◌<◌, min, ◌≡◌, refl, ◌∙◌, Bool, true, false, Option, none, some,
  List, inl, inr, arith, leb, if◌then◌else◌, length, write_at, length-write_at, Bool-cases,
  Option-cases,
}
use ift.Fat.Block.{Bpb, fread_at, get_first_data_sector}
use ift.Fat.Block.Chain.{fread_at-size}
use ift.Fat.File.{
  FatEntry, ReadFile, bytes_read, out_of_fuel, general_err, divides_by_zero, next_cluster,
  cluster_offset, cluster_size, read_loop, read_from, read_file, first_cluster,
}

-- It ends, with no more bytes than the buffer holds.
abbrev pub Fits : List ℕ → ℕ → ReadFile → Type 0
Fits buff max_len (bytes_read n filled) = (n ≤ max_len) × (length filled ≡ length buff)
Fits buff max_len general_err = Unit
Fits buff max_len divides_by_zero = Unit
Fits buff max_len out_of_fuel = ⊥

Fits-if :
    (buff : List ℕ) (max_len : ℕ) (b : Bool) (x y : ReadFile)
    → Fits buff max_len x
    → Fits buff max_len y
    → Fits buff max_len (if b then x else y)
Fits-if buff max_len true x y h k = h
Fits-if buff max_len false x y h k = k

module _ (torn : ℕ → ℕ) (archive : List ℕ) (block : Bpb) (first_data_sector max_len : ℕ) where
  abbrev loop : ℕ → List ℕ → ℕ → ℕ → ReadFile
  loop = read_loop torn archive block first_data_sector max_len

  read_loop-Fits :
      (whole : List ℕ) (fuel : ℕ) (buff : List ℕ) (n c : ℕ)
      → n ≤ max_len
      → max_len < n + fuel
      → length buff ≡ length whole
      → Fits whole max_len (loop fuel buff n c)
  unfolding read_loop
  read_loop-Fits whole zero buff n c le enough e = absurd (omega arith)
  read_loop-Fits whole (suc fuel) buff n c le enough e =
      let to_read = min (cluster_size block) (max_len - n) in
      elim (Bool-cases (leb max_len n)) [
        | inl t ↦ rw t (le, e)
        | inr t ↦
            elim (Option-cases
              (fread_at archive (cluster_offset block first_data_sector c) to_read)) [
                | inl f ↦ rw (t, f) tt
                | inr (bytes, f) ↦
                    let pos : 0 < to_read = fread_at-size archive _ to_read bytes f in
                    let same : length (write_at buff n bytes) ≡ length whole =
                      length-write_at buff n bytes ∙ e in
                    let below : n + to_read ≤ max_len = omega arith in
                    rw (t, f)
                      (Fits-if whole max_len (leb 0xFFFFFF8 (next_cluster torn archive block c)) _ _
                        (below, same)
                        (read_loop-Fits whole fuel (write_at buff n bytes) (n + to_read)
                          (next_cluster torn archive block c) below (omega arith) same))
              ]
      ]

read_from-Fits :
    (torn : ℕ → ℕ) (archive : List ℕ) (block : Bpb) (entry : FatEntry) (buff : List ℕ) (max_len : ℕ)
    (o : Option ℕ)
    → Fits buff max_len (read_from torn archive block entry buff max_len o)
unfolding read_from
read_from-Fits torn archive block entry buff max_len none = tt
read_from-Fits torn archive block entry buff max_len (some first) =
    read_loop-Fits torn archive block first max_len buff (suc max_len) buff 0 (first_cluster entry)
      (omega arith) (omega arith) refl

-- `read_file` ends on every archive, also one whose chain is a cycle, and what it returns fits.
pub read_file-Fits :
    (torn : ℕ → ℕ) (archive : List ℕ) (block : Bpb) (entry : FatEntry) (buff : List ℕ) (max_len : ℕ)
    → Fits buff max_len (read_file torn archive block entry buff max_len)
unfolding read_file
read_file-Fits torn archive block entry buff max_len =
    read_from-Fits torn archive block entry buff max_len (get_first_data_sector block)
