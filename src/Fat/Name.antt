-- ===== src/Fat/Name.antt =====
-- tp4/src/main.c: whether an entry of a directory has a name. A `char` is a byte, a string is the list
-- of its bytes without the NUL, and an array of `char` is the list of its bytes.
pub mod Arrays
pub mod Matches
use ift.Base.{
  ℕ, zero, suc, ◌+◌, ◌-◌, Bool, true, false, ◌&&◌, Option, none, some, List, [], ◌∷◌, ◌++◌, ltb,
  leb, ◌==◌, if◌then◌else◌, take, drop, get_or, set, replicate,
}
use mathlib.Core.Option
use ift.Fat.File.{FatEntry}

-- the string at the start of an array
unfoldable pub c_string : List ℕ → List ℕ
c_string [] = []
c_string (c ∷ cs) = let rest = c_string cs in if c == 0 then [] else c ∷ rest

-- the bytes that `strncpy` writes: after a NUL there are only NULs
unfoldable pub copied : ℕ → List ℕ → List ℕ
copied zero src = []
copied (suc n) [] = replicate (suc n) 0
copied (suc n) (c ∷ cs) = let rest = copied n cs in if c == 0 then replicate (suc n) 0 else c ∷ rest

unfoldable pub overlay : List ℕ → List ℕ → List ℕ
overlay dest [] = dest
overlay [] (c ∷ cs) = []
overlay (d ∷ dest) (c ∷ cs) = c ∷ overlay dest cs

unfoldable pub strncpy : List ℕ → List ℕ → ℕ → List ℕ
unfolding overlay copied
strncpy dest src n = overlay dest (copied n src)

-- The loops that end the string before the spaces after it, from the index before `i` down.
unfoldable pub remove_spaces : ℕ → List ℕ → List ℕ
remove_spaces zero array = array
remove_spaces (suc i) array =
    let rest = remove_spaces i (set array i 0) in if get_or array i 0 == b' ' then rest else array

-- `filename` and `extension`, from the bytes of the entry and a NUL
unfoldable pub clean : ℕ → List ℕ → List ℕ
unfolding remove_spaces copied
clean n src = remove_spaces n (copied n src ++ 0 ∷ [])

-- `snprintf` of "%s%s" into an array of 12 bytes
unfoldable pub concat : List ℕ → List ℕ → List ℕ
unfolding c_string
concat filename extension = take 11 (c_string filename ++ c_string extension)

unfoldable pub tolower : ℕ → ℕ
tolower c = if leb b'A' c && leb c b'Z' then c + 32 else c

-- `strcasecmp(x, y) == 0`
unfoldable pub same_case : List ℕ → List ℕ → Bool
unfolding tolower
same_case [] [] = true
same_case [] (y ∷ ys) = false
same_case (x ∷ xs) [] = false
same_case (x ∷ xs) (y ∷ ys) = (tolower x == tolower y) && same_case xs ys

-- the index that `strchr` finds
unfoldable pub strchr : List ℕ → ℕ → Option ℕ
strchr [] c = none
strchr (x ∷ xs) c = let rest = strchr xs c in if x == c then some 0 else Option.map suc rest

-- The end of `file_has_name`, from the place of the dot. A name that is too long before the dot
-- overwrites the end of `filename`: that is `none`.
unfoldable pub compare_names : List ℕ → List ℕ → List ℕ → Option ℕ → Option Bool
unfolding concat same_case strncpy
compare_names filename extension name none = some (same_case (concat filename extension) name)
compare_names filename extension name (some dot) =
    if leb 9 dot
    then none
    else some (
        same_case (concat filename extension)
          (concat (strncpy filename name dot) (strncpy extension (drop (suc dot) name) 3)))

unfoldable pub file_has_name : FatEntry → List ℕ → Option Bool
unfolding compare_names clean strchr
file_has_name entry name =
    compare_names (clean 8 entry.dir_name) (clean 3 (drop 8 entry.dir_name)) name (strchr name b'.')
