-- ===== src/Fat/Find/Answer.antt =====
-- The whole search, from the parts of the path.
use ift.Base.{
  ℕ, ◌+◌, ◌≤◌, ◌≡◌, refl, ap, ◌∙◌, some, List, [], ◌∷◌, inl, inr, arith, length, get_elem?, map,
  reverse, Option-cases, length-map,
}
use mathlib.Core.List.{reverse_aux}
use ift.Fat.Path.{
  Simplified, above_root, upper, names, get_simplified_path, break_up_path, out_of_fuel as endless,
}
use ift.Fat.Path.Levels.{levels, level_of, break_up_path-level, break_up_path-above_root}
use ift.Fat.Path.Parts.{parts_from, resolve}
use ift.Fat.Path.Resolved.{get_simplified_path-resolve}
use ift.Fat.Block.{Bpb, as_uint32, fread_at, get_first_data_sector}
use ift.Fat.Block.Chain.{fread_at-le}
use ift.Fat.File.{FatEntry, cluster_offset}
use ift.Fat.Find.{Find, general_err, crash, out_of_fuel, find_from, find_with, find_file_descriptor}
use ift.Fat.Find.Directory.{first_match, directory, descend}
use ift.Fat.Find.Directory.Lookup.{find_from-descend, entries_from-none, entries_from-some}

-- What a path without names and a path with some lead to, from the entries of the root.
answer : List ℕ → Bpb → ℕ → List FatEntry → List (List ℕ) → Find
answer archive block first_data_sector [] [] = general_err
answer archive block first_data_sector (entry ∷ entries) [] = crash
answer archive block first_data_sector entries (name ∷ rest) =
    descend archive block first_data_sector (first_match entries name) rest

pub answer_path : List ℕ → Bpb → ℕ → Simplified → Find
answer_path archive block first_data_sector (names stack) =
    answer archive block first_data_sector
      (directory archive block first_data_sector (as_uint32 block.bpb_root_clus)) (levels stack)
answer_path archive block first_data_sector above_root = general_err
answer_path archive block first_data_sector endless = out_of_fuel

-- A path has 255 levels at most.
abbrev Shallow : Simplified → Type 0
Shallow (names stack) = length stack ≤ 255
Shallow above_root = Unit
Shallow endless = ⊥

length-reverse_aux : (xs ys : List (List ℕ)) → length (reverse_aux xs ys) ≡ length xs + length ys
length-reverse_aux [] ys = omega arith
length-reverse_aux (x ∷ xs) ys = omega (arith, length-reverse_aux xs (x ∷ ys))

length-levels : (stack : List (List ℕ)) → length (levels stack) ≡ length stack
length-levels stack =
    omega (arith, length-map (reverse stack) (map upper), length-reverse_aux stack [])

module _ (archive : List ℕ) (block : Bpb) (path : List ℕ) (first_data_sector : ℕ) where
  abbrev root : ℕ
  root = cluster_offset block first_data_sector (as_uint32 block.bpb_root_clus)

  abbrev search : Find
  search = find_from archive block path first_data_sector root (break_up_path path 0)

  find_from-answer :
      (all : List (List ℕ))
      → ((level : ℕ) → break_up_path path level ≡ level_of (get_elem? all level))
      → length all ≤ 255
      → search
        ≡ answer archive block first_data_sector
            (directory archive block first_data_sector (as_uint32 block.bpb_root_clus))
            all
  unfolding answer find_from
  find_from-answer [] broken few = elim (Option-cases (fread_at archive root 32)) [
    | inl e ↦
        rw
          (
            broken 0,
            find_from,
            e,
            entries_from-none archive block first_data_sector (length archive) root e,
          )
          refl
    | inr (bytes, e) ↦
        rw
          (
            broken 0,
            find_from,
            e,
            entries_from-some archive block first_data_sector (length archive) root bytes e
                (omega (arith, fread_at-le archive root 32 bytes e)),
          )
          refl
  ]
  find_from-answer (name ∷ rest) broken few =
      find_from-descend archive block path first_data_sector root name rest broken few

  find_from-answer_path :
      (simplified : Simplified)
      → get_simplified_path path ≡ simplified
      → Shallow simplified
      → search ≡ answer_path archive block first_data_sector simplified
  unfolding answer_path find_from
  find_from-answer_path (names stack) e few =
      find_from-answer (levels stack) (λ level. break_up_path-level path stack level e)
        (omega (arith, length-levels stack, few))
  find_from-answer_path above_root e few = rw (break_up_path-above_root path 0 e) refl
  find_from-answer_path endless e few = absurd few

-- With sectors that are not empty, and a path of 255 levels at most, the search ends with what
-- `answer_path` describes, from the parts of the path and the entries of the directories. `.` and `..`
-- are resolved in the text of the path first, so that what stands before a `..` is not looked up.
pub find_file_descriptor-answer :
    (archive : List ℕ) (block : Bpb) (path : List ℕ) (first_data_sector : ℕ)
    → get_first_data_sector block ≡ some first_data_sector
    → Shallow (resolve (parts_from [] path) [])
    → find_file_descriptor archive block path
      ≡ answer_path archive block first_data_sector (resolve (parts_from [] path) [])
unfolding find_file_descriptor find_with
find_file_descriptor-answer archive block path first_data_sector e few =
    ap (find_with archive block path) e
    ∙ find_from-answer_path archive block path first_data_sector (resolve (parts_from [] path) [])
        (get_simplified_path-resolve path) few
