-- ===== src/Vmm/Frame.antt =====
-- tp3/src/vmm.c: the translation of a page to a frame, and the reads and writes above it. A page
-- number behind the page table and an address behind the memory have no result (`none`).
pub mod Access
pub mod Fault
pub mod Mapped
pub mod Private
pub mod Shared
mod Tests
pub mod Translate
use Prim.Native.Nat.{bit_or, bit_and}
use ift.Base.{
  ℕ, ◌*◌, ◌/◌, ◌%◌, ◌^◌, Bool, true, false, not, Option, none, some, List, [], ◌∷◌, ltb,
  if◌then◌else◌, ◌>>=◌,
}
use ift.Vmm.Conf.{num_pages, page_frame_size, inc32}
use ift.Vmm.Memory
use ift.Vmm.Memory.{Memory}
use ift.Vmm.PageTable
use ift.Vmm.PageTable.{PageTable, readonly_p}
use ift.Vmm.Tlb
use ift.Vmm.Tlb.{Tlb}

pub record Vmm : Type 0 where
  pub tlb : Tlb
  pub pt : PageTable
  pub pm : Memory
  pub read_count : ℕ
  pub write_count : ℕ

-- the calls of the initialisation in `main`
pub start : List ℕ → Vmm
start store = record {
  tlb = Tlb.init Tlb.zeroed;
  pt = PageTable.init PageTable.zeroed;
  pm = Memory.init store;
  read_count = 0;
  write_count = 0;
}

-- `get_physical_address`
pub physical_address : ℕ → ℕ → ℕ
physical_address frame offset = bit_or (frame * page_frame_size % 2 ^ 32) offset

-- A page is unmapped, and saved first if it was modified.
pub unmap : Vmm → ℕ → ℕ → Vmm
unmap s frame page = record s {
  pm = if readonly_p s.pt page then s.pm else Memory.backup_page s.pm frame page;
  pt = PageTable.unset_entry s.pt page;
}

-- The branch of `get_frame` where no frame is free: a victim gives up its frame.
pub evict : Vmm → Option (ℕ × Vmm)
unfolding unmap
evict s = do
  frame ← PageTable.find_victim_frame_number s.pt
  let (in_tlb, tlb) = Tlb.remove_page_from_tlb s.tlb frame
  page ← elim in_tlb [ some n ↦ some n | none ↦ PageTable.find_page s.pt frame ]
  some (frame, unmap (record s { tlb = tlb }) frame page)

pub acquire : Vmm → Option (ℕ × Vmm)
unfolding evict
acquire s = elim (Memory.find_free_frame_number s.pm) [ some f ↦ some (f, s) | none ↦ evict s ]

-- The branch of `get_frame` for a page fault.
pub fault_in : Vmm → ℕ → Bool → Option (ℕ × Vmm)
unfolding acquire
fault_in s n write = do
  (frame, s) ← acquire s
  let pt = PageTable.set_entry s.pt n frame
  let pt' = if write then PageTable.set_readonly pt n false else pt
  some (frame, record s { pm = Memory.download_page s.pm n frame; pt = pt' })

-- The branch of `get_frame` for a page that the TLB does not hold.
pub tlb_miss : Vmm → ℕ → Bool → Option (ℕ × Vmm)
unfolding fault_in
tlb_miss s n write = do
  let (found, pt) = PageTable.lookup s.pt n
  let s' = record s { pt = pt }
  (frame, t) ← elim found [ some f ↦ some (f, s') | none ↦ fault_in s' n write ]
  some (frame, record t { tlb = Tlb.add_entry t.tlb n frame (readonly_p t.pt n) })

pub tlb_hit : Vmm → ℕ → ℕ → Bool → Option (ℕ × Vmm)
tlb_hit s frame n write =
    some (frame, record s { pt = if write then PageTable.set_readonly s.pt n false else s.pt })

-- A page number out of range reads `page_table` out of bounds, at `pt_update_counters` at the latest.
pub get_frame : Vmm → ℕ → Bool → Option (ℕ × Vmm)
unfolding tlb_miss tlb_hit
get_frame s n write = if not (ltb n num_pages) then none else do
  let (found, tlb) = Tlb.lookup s.tlb n write
  let s' = record s { tlb = tlb }
  (frame, t) ← elim found [ some f ↦ tlb_hit s' f n write | none ↦ tlb_miss s' n write ]
  some (frame, record t { pt = PageTable.update_counters t.pt n })

-- what `vmm_log_command` prints of an access
pub record Event : Type 0 where
  pub laddress : ℕ
  pub page : ℕ
  pub offset : ℕ
  pub frame : ℕ
  pub paddress : ℕ
  pub char : ℕ

abbrev event : ℕ → ℕ → ℕ → Event
event laddress frame c = record {
  laddress = laddress;
  page = laddress / page_frame_size;
  offset = bit_and laddress 0xff;
  frame = frame;
  paddress = physical_address frame (bit_and laddress 0xff);
  char = c;
}

-- `vmm_read`: the byte is read at the page number, not at the physical address that is logged.
pub read : Vmm → ℕ → Option (Event × Vmm)
unfolding get_frame
read s laddress = do
  let s' = record s { read_count = inc32 s.read_count }
  (frame, t) ← get_frame s' (laddress / page_frame_size) false
  (c, pm) ← Memory.read t.pm (laddress / page_frame_size)
  some (event laddress frame c, record t { pm = pm })

-- `vmm_write`
pub write : Vmm → ℕ → ℕ → Option (Event × Vmm)
unfolding get_frame
write s laddress c = do
  let s' = record s { write_count = inc32 s.write_count }
  (frame, t) ← get_frame s' (laddress / page_frame_size) true
  pm ← Memory.write t.pm (laddress / page_frame_size) c
  some (event laddress frame c, record t { pm = pm })

-- a command of the input (`command` of parse.y)
pub data Command : Type 0 where
  reading : ℕ → Command
  writing : ℕ → ℕ → Command

pub perform : Vmm → Command → Option (Event × Vmm)
unfolding read write
perform s (reading a) = read s a
perform s (writing a c) = write s a c

pub run : Vmm → List Command → Option (List Event × Vmm)
unfolding perform
run s [] = some ([], s)
run s (a ∷ rest) = perform s a >>= λ (e, t). run t rest >>= λ (es, u). some (e ∷ es, u)
