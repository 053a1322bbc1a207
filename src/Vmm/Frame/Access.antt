-- ===== src/Vmm/Frame/Access.antt =====
-- Reads and writes: they return on every valid state, and which byte they touch.
use ift.Base.{
  Option-cases, inl, inr, suc, ℕ, ◌/◌, ◌^◌, ◌<◌, ◌≡◌, refl, sym, ◌∙◌, subst, ap, true, false,
  Option, none, ◌>>=◌, List, [], ◌∷◌, arith, length, length-replicate, get_or, get_or-replicate,
  All, All-replicate, AllPairs-replicate, Yields, Yields-bind,
}
use mathlib.Core.Option
use ift.Vmm.Conf.{num_frames, page_frame_size, inc32, tlb_num_entries}
use ift.Vmm.Memory
use ift.Vmm.Memory.Laws.{bitmap-init, memory-init, Alike, read-Alike, write-Alike}
use ift.Vmm.PageTable
use ift.Vmm.PageTable.{page}
use ift.Vmm.PageTable.Laws.{Maps, page-init, init-IsSized}
use ift.Vmm.Tlb.Slots.{Live, Apart, slots-init}
use ift.Vmm.Frame.Fault.{IsValid}
use ift.Vmm.Frame.Private.{IsPrivate}
use ift.Vmm.Frame.Translate.{Translated, get_frame-Translated}
use ift.Vmm.Frame.{
  Vmm, start, get_frame, Event, read, write, Command, reading, writing, perform, run,
}

unmapped : (n f : ℕ) → Maps (PageTable.init PageTable.zeroed) n f → ⊥
unmapped n f m = let e = page-init n in let a = m.0 in cc (ap (λ (p : PageTable.Page). p.valid) e)

-- The state that `main` starts from is valid, and no page shares a frame.
pub start-IsValid :
    (store : List ℕ) → IsValid (start store) × IsPrivate (start store).pt (start store).pm.bitmap
unfolding start
start-IsValid store = (
  record {
    mapped = record {
      sized = init-IsSized;
      framed = λ n f m. absurd (unmapped n f m);
      cached =
          rw slots-init
            (All-replicate (Live (Maps (start store).pt)) tlb_num_entries (0, none) (λ f e. cc));
      apart = rw slots-init (AllPairs-replicate Apart tlb_num_entries (0, none) (λ f g e. cc));
    };
    bitmap_sized = ap length (bitmap-init store) ∙ length-replicate num_frames false;
    memory_sized = memory-init store;
    taken = λ f used.
        let e =
          ap (λ b. get_or b f false) (bitmap-init store) ∙ get_or-replicate num_frames f false in
        cc;
  },
  record {
    exclusive = λ n m f a b. absurd (unmapped n f a);
    covered = λ n f a. absurd (unmapped n f a);
  },
)

-- a 16-bit address, as the lexer accepts it
abbrev pub InRange : Command → Type 0
InRange (reading a) = a < 2 ^ 16
InRange (writing a c) = a < 2 ^ 16

counted : (s : Vmm) (r w : ℕ) → IsValid s → IsValid (record s { read_count = r; write_count = w })
counted s r w v = record {
  mapped = v.mapped;
  bitmap_sized = v.bitmap_sized;
  memory_sized = v.memory_sized;
  taken = v.taken;
}

with_memory :
    (s : Vmm) (m : Memory.Memory) → Alike s.pm m → IsValid s → IsValid (record s { pm = m })
with_memory s m e v = record {
  mapped = v.mapped;
  bitmap_sized = ap length e.bitmap ∙ v.bitmap_sized;
  memory_sized = e.memory_sized ∙ v.memory_sized;
  taken = λ f used. v.taken f (subst (λ b. get_or b f false ≡ true) e.bitmap used);
}

perform-IsValid :
    (s : Vmm) (a : Command) → IsValid s → InRange a → Yields (λ r. IsValid r.1) (perform s a)
unfolding perform read write
perform-IsValid s (reading a) v lt =
    let n = a / page_frame_size in
    let s' : Vmm = record s { read_count = inc32 s.read_count } in
    Yields-bind (Translated s' n) (λ r. IsValid r.1) (get_frame s' n false) _
      (get_frame-Translated s' n false (counted s _ _ v) (omega arith))
      λ (f, t) r.
        Yields-bind (λ c. Alike t.pm c.1) (λ r. IsValid r.1) (Memory.read t.pm n) _
          (read-Alike t.pm n (omega (arith, lt, r.valid.memory_sized)))
          λ (c, m) e. with_memory t m e r.valid
perform-IsValid s (writing a c) v lt =
    let n = a / page_frame_size in
    let s' : Vmm = record s { write_count = inc32 s.write_count } in
    Yields-bind (Translated s' n) (λ r. IsValid r.1) (get_frame s' n true) _
      (get_frame-Translated s' n true (counted s _ _ v) (omega arith))
      λ (f, t) r.
        Yields-bind (Alike t.pm) (λ r. IsValid r.1) (Memory.write t.pm n c) _
          (write-Alike t.pm n c (omega (arith, lt, r.valid.memory_sized)))
          λ m e. with_memory t m e r.valid

-- On a valid state every sequence of commands with 16-bit addresses is carried out to its end: each
-- byte is read or written inside the physical memory, one event is logged for each command, and the
-- state stays valid.
pub run-IsValid :
    (s : Vmm) (cs : List Command)
    → IsValid s
    → All InRange cs
    → Yields (λ r. (length r.0 ≡ length cs) × IsValid r.1) (run s cs)
unfolding run
run-IsValid s [] v h = (refl, v)
run-IsValid s (c ∷ rest) v h =
    Yields-bind (λ r. IsValid r.1) (λ r. (length r.0 ≡ suc (length rest)) × IsValid r.1)
      (perform s c) _ (perform-IsValid s c v h.0)
      λ (e, t) w.
        Yields-bind (λ r. (length r.0 ≡ length rest) × IsValid r.1)
          (λ r. (length r.0 ≡ suc (length rest)) × IsValid r.1) (run t rest) _
          (run-IsValid t rest w h.1) λ (es, u) q. (omega (arith, q.0), q.1)

-- the byte that a read of page `n` returns, whatever the offset
byte_of : Vmm → ℕ → Option ℕ
byte_of s n = get_frame (record s { read_count = inc32 s.read_count }) n false >>= λ r.
    Option.map (λ (c : ℕ × Memory.Memory). c.0) (Memory.read r.1.pm n)

char-read :
    (s : Vmm) (a : ℕ)
    → Option.map (λ (r : Event × Vmm). r.0.char) (read s a) ≡ byte_of s (a / page_frame_size)
unfolding read byte_of
char-read s a =
    elim (Option-cases
      (get_frame (record s { read_count = inc32 s.read_count }) (a / page_frame_size) false)) [
        | inl fault ↦ rw (fault)
        | inr (r, done) ↦ elim (Option-cases (Memory.read r.1.pm (a / page_frame_size))) [
          | inl outside ↦ rw (done, outside)
          | inr (c, inside) ↦ rw (done, inside)
        ]
      ]

-- Two reads in one page return the same byte, whatever their offsets.
pub read-same_page :
    (s : Vmm) (a b : ℕ)
    → a / page_frame_size ≡ b / page_frame_size
    → Option.map (λ (r : Event × Vmm). r.0.char) (read s a)
      ≡ Option.map (λ (r : Event × Vmm). r.0.char) (read s b)
read-same_page s a b e = char-read s a ∙ ap (byte_of s) e ∙ sym (char-read s b)
