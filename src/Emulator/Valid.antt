-- ===== src/Emulator/Valid.antt =====
-- The registers stay in their widths and the memory holds bytes.
use sector_os.Base.{ℕ, ◌<◌, Option, none, some, ◌>>=◌, Ensures, arith}
use sector_os.Emulator.State.{
  Cpu, Ram, IsCpu, IsRam, write, scale, scale-lt, read_in, write_in, update-IsRam, max_mem,
}
use sector_os.Emulator.Move.{move_a, move_x, move_y, move_q, move_of, move_memory, move}
use sector_os.Emulator.Jump.{jump, jump_zero, jump_not_zero, jump_equal, jump_not_equal}
use sector_os.Emulator.Arith.{set_flags, decrement, increment, add_registers, sub_registers}
use sector_os.Emulator.Compare.{equal_bit, compare_registers}

set_flags-IsCpu : (r : ℕ) (s : Cpu) → IsCpu s → IsCpu (set_flags r s)
unfolding set_flags
set_flags-IsCpu r s h = ground arith

pub decrement-IsCpu : (p : ℕ) (s : Cpu) → IsCpu s → IsCpu (decrement p s)
unfolding decrement set_flags
decrement-IsCpu p s h = ground arith

pub increment-IsCpu : (p : ℕ) (s : Cpu) → IsCpu s → IsCpu (increment p s)
unfolding increment
increment-IsCpu p s h = ground arith

pub add_registers-IsCpu : (p r : ℕ) (s : Cpu) → IsCpu s → IsCpu (add_registers p r s)
unfolding add_registers
add_registers-IsCpu p r s h = ground arith

pub sub_registers-IsCpu : (p r : ℕ) (s : Cpu) → IsCpu s → IsCpu (sub_registers p r s)
unfolding sub_registers set_flags
sub_registers-IsCpu p r s h = ground arith

equal_bit-lt : (so de : ℕ) (s : Cpu) → equal_bit so de s < 2
unfolding equal_bit
equal_bit-lt so de s = ground arith

pub compare_registers-IsCpu : (p r : ℕ) (s : Cpu) → IsCpu s → IsCpu (compare_registers p r s)
unfolding compare_registers
compare_registers-IsCpu p r s h = ground (arith, equal_bit-lt p r s)

pub jump-IsCpu : (p : ℕ) (s : Cpu) → IsCpu s → IsCpu (jump p s)
unfolding jump
jump-IsCpu p s h = ground arith

pub jump_zero-IsCpu : (p : ℕ) (s : Cpu) → IsCpu s → IsCpu (jump_zero p s)
unfolding jump_zero
jump_zero-IsCpu p s h = ground arith

pub jump_not_zero-IsCpu : (p : ℕ) (s : Cpu) → IsCpu s → IsCpu (jump_not_zero p s)
unfolding jump_not_zero
jump_not_zero-IsCpu p s h = ground arith

pub jump_equal-IsCpu : (p : ℕ) (s : Cpu) → IsCpu s → IsCpu (jump_equal p s)
unfolding jump_equal
jump_equal-IsCpu p s h = ground arith

pub jump_not_equal-IsCpu : (p : ℕ) (s : Cpu) → IsCpu s → IsCpu (jump_not_equal p s)
unfolding jump_not_equal
jump_not_equal-IsCpu p s h = ground arith

module _ (source : ℕ) (s : Cpu) (ram : Ram) (byte : source < 256) (h : IsCpu s)
    (b : IsRam ram) where
  abbrev operand : ℕ
  operand = scale s.of source

  move_a-IsCpu : Ensures IsCpu (move_a source s ram)
  unfolding move_a
  move_a-IsCpu =
      ground (arith, read_in ram operand (scale-lt s.of source h.of_range byte), b operand)

  move_x-IsCpu : Ensures IsCpu (move_x source s ram)
  unfolding move_x
  move_x-IsCpu =
      ground (arith, read_in ram operand (scale-lt s.of source h.of_range byte), b operand)

  move_y-IsCpu : Ensures IsCpu (move_y source s ram)
  unfolding move_y
  move_y-IsCpu =
      ground (arith, read_in ram operand (scale-lt s.of source h.of_range byte), b operand)

  move_q-IsCpu : Ensures IsCpu (move_q source s ram)
  unfolding move_q
  move_q-IsCpu =
      ground (arith, read_in ram operand (scale-lt s.of source h.of_range byte), b operand)

  move_of-IsCpu : Ensures IsCpu (move_of source s ram)
  unfolding move_of
  move_of-IsCpu = ground (arith, read_in ram source (omega arith), b source)

write-IsRam :
    (ram : Ram) (p v : ℕ) → p < max_mem → v < 256 → IsRam ram → Ensures IsRam (write ram p v)
write-IsRam ram p v hp hv b = rw (write_in ram p v hp) (update-IsRam ram p v b hv)

abbrev pub IsPair : Cpu × Ram → Type 0
IsPair p = IsCpu p.0 × IsRam p.1

module _ (destination source : ℕ) (s : Cpu) (ram : Ram) (byte : destination < 256)
    (byte' : source < 256) (h : IsCpu s) (b : IsRam ram) where
  store-IsRam : (v : ℕ) → v < 256 → Ensures IsRam (write ram (scale s.of destination) v)
  store-IsRam v hv = write-IsRam ram _ v (scale-lt s.of destination h.of_range byte) hv b

  move_memory-IsRam : Ensures IsRam (move_memory destination source s ram)
  unfolding move_memory
  move_memory-IsRam = ground (
    arith,
    store-IsRam s.a h.a_range,
    store-IsRam s.x h.x_range,
    store-IsRam s.y h.y_range,
    store-IsRam s.q h.q_range,
    read_in ram source (omega arith),
    write-IsRam ram destination (ram source) (omega arith) (b source) b,
  )

  paired : (m : Option Cpu) → Ensures IsCpu m → Ensures IsPair (m >>= λ t. some (t, ram))
  paired (some t) p = (p, b)
  paired none p = p

  stored : (m : Option Ram) → Ensures IsRam m → Ensures IsPair (m >>= λ r. some (s, r))
  stored (some r) p = (h, p)
  stored none p = p

  pub move-IsPair : Ensures IsPair (move destination source s ram)
  unfolding move
  move-IsPair = ground (
    arith,
    paired _ (move_a-IsCpu source s ram byte' h b),
    paired _ (move_x-IsCpu source s ram byte' h b),
    paired _ (move_y-IsCpu source s ram byte' h b),
    paired _ (move_q-IsCpu source s ram byte' h b),
    paired _ (move_of-IsCpu source s ram byte' h b),
    stored _ move_memory-IsRam,
  )
