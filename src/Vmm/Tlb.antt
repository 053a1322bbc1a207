-- ===== src/Vmm/Tlb.antt =====
-- tp3/src/tlb.c: the translation lookaside buffer. A negative `frame_number` marks an entry as
-- free; the only negative value that the code stores is -1, here `none`.
pub mod Slots
mod Tests
pub mod Victim
use ift.Base.{
  ℕ, suc, ◌+◌, Bool, true, false, not, ◌&&◌, Option, none, some, List, [], ◌∷◌, map, ltb, leb, ◌==◌,
  if◌then◌else◌, is_some, get_or, set, replicate,
}
use ift.Vmm.Conf.{tlb_num_entries, inc32}

-- `struct tlb_entry`
pub record TlbEntry : Type 0 where
  pub page_number : ℕ
  pub frame_number : Option ℕ
  pub readonly : Bool
  pub counter : ℕ

pub record Tlb : Type 0 where
  pub entries : List TlbEntry
  pub hit_count : ℕ
  pub miss_count : ℕ
  pub mod_count : ℕ

abbrev pub blank : TlbEntry
blank = record { page_number = 0; frame_number = none; readonly = false; counter = 0 }

-- Static storage is zero: before `tlb_init` every entry names frame 0.
abbrev pub zeroed : Tlb
zeroed = record {
  entries = replicate tlb_num_entries (record blank { frame_number = some 0 });
  hit_count = 0;
  miss_count = 0;
  mod_count = 0;
}

unfoldable pub init : Tlb → Tlb
init t = record t { entries = map (λ (e : TlbEntry). record e { frame_number = none }) t.entries }

-- the body of the loop of `increment_counters`
pub tick : TlbEntry → TlbEntry
tick e = if is_some e.frame_number then record e { counter = inc32 e.counter } else e

pub increment_counters : List TlbEntry → List TlbEntry
unfolding tick
increment_counters es = map tick es

-- what `tlb__lookup` does to the entry that it finds
pub touch : TlbEntry → Bool → TlbEntry
touch e write = record e {
  counter = 0;
  readonly = if e.readonly && write then false else e.readonly;
}

-- the loop of `tlb__lookup`
pub probe : List TlbEntry → ℕ → Bool → Option ℕ × List TlbEntry
unfolding touch
probe [] n write = (none, [])
probe (e ∷ es) n write =
    let rest = probe es n write in
    if is_some e.frame_number && e.page_number == n
    then (e.frame_number, touch e write ∷ es)
    else (rest.0, e ∷ rest.1)

-- `tlb_lookup`
unfoldable pub lookup : Tlb → ℕ → Bool → Option ℕ × Tlb
unfolding probe increment_counters
lookup t n write =
    let (found, es) = probe (increment_counters t.entries) n write in
    (
      found,
      record t {
        entries = es;
        miss_count = if is_some found then t.miss_count else inc32 t.miss_count;
        hit_count = if is_some found then inc32 t.hit_count else t.hit_count;
      },
    )

-- the body of the loop of `get_least_recently_used`; `l` is `tlb_entries[lru]`
pub prefer : ℕ → TlbEntry → ℕ → TlbEntry → ℕ
prefer lru l i e =
    if is_some e.frame_number && leb l.counter e.counter
    then (if l.counter == e.counter then (if l.readonly && not e.readonly then i else lru) else i)
    else lru

pub lru_from : List TlbEntry → ℕ → List TlbEntry → ℕ → ℕ
unfolding prefer
lru_from all i [] lru = lru
lru_from all i (e ∷ es) lru = lru_from all (suc i) es (prefer lru (get_or all lru blank) i e)

pub get_least_recently_used : List TlbEntry → ℕ
unfolding lru_from
get_least_recently_used es = lru_from es 0 es 0

-- the first loop of `tlb__add_entry`: it does not stop at the first free entry
pub last_free_from : ℕ → List TlbEntry → Option ℕ → Option ℕ
last_free_from i [] victim = victim
last_free_from i (e ∷ es) victim =
    last_free_from (suc i) es (if is_some e.frame_number then victim else some i)

pub victim : List TlbEntry → ℕ
unfolding last_free_from get_least_recently_used
victim es = elim (last_free_from 0 es none) [ some i ↦ i | none ↦ get_least_recently_used es ]

-- `tlb_add_entry` and `tlb__add_entry`
unfoldable pub add_entry : Tlb → ℕ → ℕ → Bool → Tlb
unfolding victim
add_entry t n frame readonly = record t {
  entries =
      set t.entries (victim t.entries)
        (record { page_number = n; frame_number = some frame; readonly = readonly; counter = 0 });
  mod_count = inc32 t.mod_count;
}

abbrev pub holds_frame : TlbEntry → ℕ → Bool
holds_frame e frame = elim e.frame_number [ none ↦ false | some f ↦ f == frame ]

-- the loop of `remove_page_from_tlb`
pub remove_from : List TlbEntry → ℕ → Option ℕ × List TlbEntry
remove_from [] frame = (none, [])
remove_from (e ∷ es) frame =
    let rest = remove_from es frame in
    if holds_frame e frame
    then (some e.page_number, record e { frame_number = none } ∷ es)
    else (rest.0, e ∷ rest.1)

unfoldable pub remove_page_from_tlb : Tlb → ℕ → Option ℕ × Tlb
unfolding remove_from
remove_page_from_tlb t frame =
    let (n, es) = remove_from t.entries frame in (n, record t { entries = es })
