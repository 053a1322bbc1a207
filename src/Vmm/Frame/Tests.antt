-- ===== src/Vmm/Frame/Tests.antt =====
-- The virtual memory at concrete states, and its theorems there.
use ift.Base.{
  ℕ, ◌+◌, ◌≡◌, refl, true, false, none, some, List, [], ◌∷◌, arith, length, get_or, All, Yields,
  Yields-some, zero, suc, ◌*◌,
}
use mathlib.Core.Option
use ift.Vmm.PageTable
use ift.Vmm.Tlb
use ift.Vmm.Memory
use ift.Vmm.Memory.Laws.{memory-init}
use ift.Vmm.Memory.Transfer.{download-backup}
use ift.Vmm.PageTable.Victim.{IsVictim, find_victim_frame_number-IsVictim}
use ift.Vmm.Frame.Access.{start-IsValid, InRange, run-IsValid, read-same_page}
use ift.Vmm.Frame.Fault.{IsValid}
use ift.Vmm.Frame.Private.{IsPrivate, FindsOwner, get_frame-IsPrivate}
use ift.Vmm.Frame.Shared.{FindsStale, IsShared, get_frame-IsShared}
use ift.Vmm.Frame.Translate.{Translated, get_frame-Translated}
use ift.Vmm.Frame.{Vmm, start, get_frame, read, Event, Command, reading, writing, run}

-- what a test computes with
machine : Vmm
unfolding run start Tlb.init Tlb.lookup Tlb.add_entry PageTable.init PageTable.lookup
    PageTable.set_entry PageTable.set_readonly PageTable.update_counters Memory.init
    Memory.find_free_frame_number PageTable.unset_entry PageTable.find_page
    PageTable.find_victim_frame_number Tlb.remove_page_from_tlb Memory.backup_page
    Memory.download_page Memory.read Memory.write
machine = start []

abbrev accesses : List Command
accesses = writing 0x0105 b'a' ∷ reading 0x0105 ∷ reading 0x01ff ∷ reading 0x2000 ∷ []

abbrev chars : List Event → List ℕ
chars [] = []
chars (e ∷ es) = e.char ∷ chars es

-- The write of byte 5 of page 1 is read back at every offset of page 1.
run_runs : Yields (λ r. chars r.0 ≡ b'a' ∷ b'a' ∷ b'a' ∷ 0 ∷ []) (run machine accesses)
unfolding machine
run_runs = refl

machine-IsValid : IsValid machine × IsPrivate machine.pt machine.pm.bitmap
unfolding machine
machine-IsValid = start-IsValid []

-- The state after some commands.
after : List Command → Vmm
unfolding machine
after cs = elim (run machine cs) [ some r ↦ r.1 | none ↦ machine ]

after-IsValid : (cs : List Command) → All InRange cs → IsValid (after cs)
unfolding after
after-IsValid cs h =
    let p =
      Yields-some (λ (r : List Event × Vmm). (length r.0 ≡ length cs) × IsValid r.1)
        (run machine cs) (run-IsValid machine cs machine-IsValid.0 h) in
    rw (p.1, after) p.2.1

-- the first read of each of `n` pages from page `i` on
abbrev fill : ℕ → ℕ → List Command
fill zero i = []
fill (suc n) i = reading (i * 256) ∷ fill n (i + 1)

full : Vmm
unfolding after
full = after (fill 32 1)

full-IsValid : IsValid full
unfolding full
full-IsValid = after-IsValid (fill 32 1) (omega arith)

-- Page 0 was never loaded; its entry still names frame 0, which is that of page 1.
full-FindsStale : FindsStale full 0 0
unfolding full
full-FindsStale = record { full = refl; victim = refl; uncached = refl; found = refl; stale = refl }

get_frame-IsShared_example : Yields (IsShared 33) (get_frame full 33 false)
unfolding full
get_frame-IsShared_example =
    get_frame-IsShared full 33 0 0 false full-IsValid (omega arith) refl refl full-FindsStale

get_frame-Translated_example : Yields (Translated machine 7) (get_frame machine 7 true)
get_frame-Translated_example = get_frame-Translated machine 7 true machine-IsValid.0 (omega arith)

machine-FindsOwner : FindsOwner machine.pt
unfolding machine
machine-FindsOwner frame w found at = absurd (cc found)

get_frame-IsPrivate_example :
    Yields (λ r. IsPrivate r.1.pt r.1.pm.bitmap) (get_frame machine 7 false)
get_frame-IsPrivate_example =
    get_frame-IsPrivate machine 7 false machine-IsValid.0 (omega arith) machine-IsValid.1
      machine-FindsOwner

run-IsValid_example : Yields (λ r. (length r.0 ≡ 4) × IsValid r.1) (run machine accesses)
run-IsValid_example = run-IsValid machine accesses machine-IsValid.0 (omega arith)

read-same_page_example :
    Option.map (λ (r : Event × Vmm). r.0.char) (read machine 0x0105)
    ≡ Option.map (λ (r : Event × Vmm). r.0.char) (read machine 0x01ff)
read-same_page_example = read-same_page machine 0x0105 0x01ff refl

abbrev store : List ℕ
store = 1 ∷ 2 ∷ 3 ∷ []

download-backup_example :
    get_or (Memory.download_page (Memory.backup_page (Memory.init store) 3 1) 1 2).memory 512 0
    ≡ get_or (Memory.init store).memory 768 0
download-backup_example =
    download-backup (Memory.init store) 3 1 2 512 (memory-init store) (omega arith) (omega arith)
      (omega arith)

page_one-valid : (PageTable.page full.pt 1).valid ≡ true
unfolding full
page_one-valid = refl

find_victim_frame_number-IsVictim_example :
    (k : ℕ) × (PageTable.find_victim_frame_number full.pt
      ≡ some (PageTable.page full.pt k).frame_number)
    × IsVictim full.pt k
find_victim_frame_number-IsVictim_example =
    find_victim_frame_number-IsVictim full.pt 1 (omega (arith, full-IsValid.mapped.sized))
      page_one-valid
