-- ===== src/Emulator/Loading.antt =====
-- `LoadPRG` copies the program to its load address if it ends below the top of the memory, and
-- otherwise does not end: the 16-bit counter wraps before it meets its limit.
use sector_os.Base.{
  ℕ, zero, suc, ◌+◌, ◌-◌, ◌≡◌, ◌≤◌, ◌<◌, refl, none, some, ltb, arith, u16, u32, sub32, update,
  if◌then◌else◌, leb, fun_ext, ◌&&◌, ap, ge→ltb, lt→ltb, ◌∙◌, ℕ_discrete, ne→==,
}
use sector_os.Emulator.State.{Ram, max_mem}
use sector_os.Emulator.Load.{System, load_loop, load_address, load_prg}

-- `n` bytes from `prg at` on, copied to `ram i` on.
abbrev pub copied : (ℕ → ℕ) → ℕ → ℕ → ℕ → Ram → Ram
copied prg n i at ram p = if leb i p && ltb p (i + n) then prg (at + (p - i)) else ram p

copied_step :
    (prg : ℕ → ℕ) (n i at : ℕ) (ram : Ram)
    → copied prg n (i + 1) (at + 1) (update ram i (prg at)) ≡ copied prg (suc n) i at ram
copied_step prg n i at ram = fun_ext λ p. shifted p (ℕ_discrete p i)
  where
    shifted :
        (p : ℕ)
        → Dec (p ≡ i)
        → copied prg n (i + 1) (at + 1) (update ram i (prg at)) p ≡ copied prg (suc n) i at ram p
    shifted p (yes e) = let same : at + (p - i) ≡ at = omega arith in rw same (ground arith)
    shifted p (no e) = ground arith

copied_none : (prg : ℕ → ℕ) (i at : ℕ) (ram : Ram) → copied prg 0 i at ram ≡ ram
copied_none prg i at ram = fun_ext λ p. ground arith

load_loop-copied :
    (n fuel : ℕ) (prg : ℕ → ℕ) (limit i at : ℕ) (ram : Ram)
    → i + n ≡ limit
    → limit < 65536
    → at + n < 4294967296
    → n < fuel
    → load_loop fuel prg limit i at ram ≡ some (copied prg n i at ram)
unfolding load_loop
load_loop-copied n zero prg limit i at ram e hl ha hf = absurd (omega arith)
load_loop-copied zero (suc fuel) prg limit i at ram e hl ha hf =
    rw (ge→ltb i limit (omega arith)) (rw (copied_none prg i at ram))
load_loop-copied (suc n) (suc fuel) prg limit i at ram e hl ha hf =
    let next_i : u16 (i + 1) ≡ i + 1 = omega arith in
    let next_at : u32 (at + 1) ≡ at + 1 = omega arith in
    rw (lt→ltb i limit (omega arith), next_i, next_at)
      (load_loop-copied n fuel prg limit (i + 1) (at + 1) (update ram i (prg at)) (omega arith) hl
          (omega arith) (omega arith)
        ∙ ap some (copied_step prg n i at ram))

-- While the limit is not below the top, no fuel is enough.
load_loop_diverges :
    (fuel : ℕ) (prg : ℕ → ℕ) (limit i at : ℕ) (ram : Ram)
    → 65536 ≤ limit
    → i < 65536
    → load_loop fuel prg limit i at ram ≡ none
unfolding load_loop
load_loop_diverges zero prg limit i at ram hl hi = refl
load_loop_diverges (suc fuel) prg limit i at ram hl hi =
    ground (
      arith,
      load_loop_diverges fuel prg limit (u16 (i + 1)) (u32 (at + 1)) (update ram i (prg at)),
    )

load_address-lt : (prg : ℕ → ℕ) → load_address prg < 65536
unfolding load_address
load_address-lt prg = omega arith

-- The system behind the load of `n` bytes of `prg`, which follow its two address bytes.
abbrev pub loaded : (ℕ → ℕ) → ℕ → System → System
loaded prg n s = record {
  cpu = record s.cpu { pc = load_address prg };
  mem = copied prg n (load_address prg) 2 s.mem;
}

-- A program of `n` bytes behind its address, which is not empty and ends below the top of the
-- memory, is loaded: the program counter is set, the bytes stand from the load address on, and the
-- rest of the memory is as it was. The rounds that the loop needs are one more than its bytes.
pub load_prg-loaded :
    (prg : ℕ → ℕ) (n fuel : ℕ) (s : System)
    → 1 ≤ n
    → load_address prg + n < max_mem
    → n < fuel
    → load_prg fuel (some prg) (n + 2) s ≡ some (loaded prg n s)
unfolding load_prg
load_prg-loaded prg n fuel s pos fits enough =
    let limit : sub32 (u32 (load_address prg + (n + 2))) 2 ≡ load_address prg + n = omega arith in
    let loop =
      load_loop-copied n fuel prg (load_address prg + n) (load_address prg) 2 s.mem refl fits
        (omega arith) enough in
    rw (ne→== (n + 2) 2 (omega arith), limit, loop) refl

-- A program that ends at the top of the memory or past it is never loaded, if the sum of its size
-- and its address does not wrap at 32 bits: the loop has not ended after any number of rounds.
load_prg_diverges :
    (prg : ℕ → ℕ) (size fuel : ℕ) (s : System)
    → max_mem + 2 ≤ load_address prg + size
    → load_address prg + size < 4294967296
    → load_prg fuel (some prg) size s ≡ none
unfolding load_prg
load_prg_diverges prg size fuel s over small = ground (
  arith,
  load_address-lt prg,
  load_loop_diverges fuel prg (sub32 (u32 (load_address prg + size)) 2) (load_address prg) 2 s.mem,
)
