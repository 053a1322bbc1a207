-- ===== src/Vmm/PageTable.antt =====
-- tp3/src/pt.c and pt.h: the page table. An index that the C code holds as `-1` when nothing was
-- found is an `Option`.
pub mod Laws
pub mod Victim
use ift.Base.{
  ℕ, suc, ◌+◌, ◌%◌, ◌^◌, Bool, true, false, not, Option, none, some, List, [], ◌∷◌, map, ltb, ◌==◌,
  if◌then◌else◌, is_some, get_or, modify, replicate,
}
use ift.Vmm.Conf.{num_pages, inc32}

-- `struct page`
pub record Page : Type 0 where
  pub readonly : Bool
  pub valid : Bool
  pub frame_number : ℕ
  pub counter : ℕ

-- The table with the three counters of its accesses. The log file is not part of the state.
pub record PageTable : Type 0 where
  pub pages : List Page
  pub lookup_count : ℕ
  pub page_fault_count : ℕ
  pub set_count : ℕ

-- static storage is zero
abbrev pub blank : Page
blank = record { readonly = false; valid = false; frame_number = 0; counter = 0 }

abbrev pub zeroed : PageTable
zeroed = record {
  pages = replicate num_pages blank;
  lookup_count = 0;
  page_fault_count = 0;
  set_count = 0;
}

-- `page_table[page_number]`; every caller stays below `num_pages`
abbrev pub page : PageTable → ℕ → Page
page t n = get_or t.pages n blank

unfoldable pub init : PageTable → PageTable
init t = record t { pages = map (λ (e : Page). record e { valid = false }) t.pages }

-- `pt__lookup`
pub raw_lookup : PageTable → ℕ → Option ℕ
raw_lookup t n = if (page t n).valid then some (page t n).frame_number else none

unfoldable pub lookup : PageTable → ℕ → Option ℕ × PageTable
unfolding raw_lookup
lookup t n =
    let found = raw_lookup t n in
    (
      found,
      record t {
        lookup_count = inc32 t.lookup_count;
        page_fault_count = if is_some found then t.page_fault_count else inc32 t.page_fault_count;
      },
    )

-- the body of the loop of `pt_update_counters`
pub tick : Page → Page
tick e = if e.valid then record e { counter = inc32 e.counter } else e

unfoldable pub update_counters : PageTable → ℕ → PageTable
unfolding tick
update_counters t n = record t {
  pages = modify (map tick t.pages) n (λ (e : Page). record e { counter = 0 });
}

-- `pt__set_entry` and `pt_set_entry`; the frame number is a bit field of 16 bits
unfoldable pub set_entry : PageTable → ℕ → ℕ → PageTable
set_entry t n frame = record t {
  pages =
      modify t.pages n
        (λ _. record { readonly = true; valid = true; frame_number = frame % 2 ^ 16; counter = 0 });
  set_count = inc32 t.set_count;
}

unfoldable pub unset_entry : PageTable → ℕ → PageTable
unset_entry t n = record t { pages = modify t.pages n (λ (e : Page). record e { valid = false }) }

abbrev pub readonly_p : PageTable → ℕ → Bool
readonly_p t n = (page t n).readonly

abbrev pub valid_p : PageTable → ℕ → Bool
valid_p t n = (page t n).valid

unfoldable pub set_readonly : PageTable → ℕ → Bool → PageTable
set_readonly t n b = record t { pages = modify t.pages n (λ (e : Page). record e { readonly = b }) }

-- the loop of `pt_find_page`, at index `i`
pub find_page_from : ℕ → List Page → ℕ → Option ℕ
find_page_from i [] frame = none
find_page_from i (e ∷ es) frame =
    if e.frame_number == frame then some i else find_page_from (suc i) es frame

unfoldable pub find_page : PageTable → ℕ → Option ℕ
unfolding find_page_from
find_page t frame = find_page_from 0 t.pages frame

-- `if (lru == -1 || page_table[i].counter > page_table[lru].counter) lru = i`
pub older : List Page → Option ℕ → ℕ → Page → Option ℕ
older table none i e = some i
older table (some lru) i e =
    if ltb (get_or table lru blank).counter e.counter then some i else some lru

-- the loop of `find_victim_frame_number`, with `lru_clean` and `lru_dirty`
pub victim_from : List Page → ℕ → List Page → Option ℕ → Option ℕ → Option ℕ × Option ℕ
unfolding older
victim_from table i [] clean dirty = (clean, dirty)
victim_from table i (e ∷ es) clean dirty =
    victim_from table (suc i) es
      (if e.valid then (if e.readonly then older table clean i e else clean) else clean)
      (if e.valid then (if e.readonly then dirty else older table dirty i e) else dirty)

-- With no valid page the C code reads `page_table[-1]`: undefined, here `none`.
unfoldable pub find_victim_frame_number : PageTable → Option ℕ
unfolding victim_from
find_victim_frame_number t =
    let (clean, dirty) = victim_from t.pages 0 t.pages none none in
    elim clean [
      | some i ↦ some (page t i).frame_number
      | none ↦ elim dirty [ some i ↦ some (page t i).frame_number | none ↦ none ]
    ]
