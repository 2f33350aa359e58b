-- ===== src/Emulator/Registers.antt =====
-- What the register instructions do, by the number that an operand byte names a register with.
use sector_os.Base.{
  ℕ, zero, suc, ◌+◌, ◌≡◌, ◌≤◌, ◌<◌, ◌≢◌, ◌⊎◌, Ensures, ◌==◌, if◌then◌else◌, arith, bit, u8, sub8,
  Bool, leb, ◌&&◌, not, inl, false, dec_lt, inr,
}
use sector_os.Emulator.State.{Cpu, Ram, IsCpu}
use sector_os.Emulator.Move.{move_a, move_x, move_y, move_q, move_of, move}
use sector_os.Emulator.Arith.{set_flags, decrement, increment, add_registers, sub_registers}
use sector_os.Emulator.Compare.{equal_bit}
use sector_os.Emulator.Jump.{jump, jump_zero, jump_not_zero, jump_equal, jump_not_equal}

unfoldable pub reg : ℕ → Cpu → ℕ
reg r s =
    if r == 1
    then s.a
    else if r == 2
    then s.x
    else if r == 3
    then s.y
    else if r == 4
    then s.q
    else if r == 5
    then s.k
    else if r == 6
    then s.of
    else 0

-- The operands of `MV` that name two different registers.
abbrev pub AreRegisters : ℕ → ℕ → Type 0
AreRegisters d s = (1 ≤ d) × (1 ≤ s) × (d ≢ s) × (((d ≤ 4) × (s ≤ 5)) ⊎ ((d ≡ 6) × (s ≤ 4)))

-- The register `r` behind a move from `s` to `d`: the destination has the source's value, the source
-- is cleared, and any other register is kept.
abbrev pub Transfers : ℕ → ℕ → ℕ → Cpu → Cpu → Type 0
Transfers d s r c c' =
    (reg r c' ≡ (if r == d then reg s c else if r == s then 0 else reg r c)) × (c'.pc ≡ c.pc)

-- Between two registers, but for Q from Y, `MV` moves the value and clears the source; the other
-- registers, the program counter and the memory stay.
move-Transfers :
    (d s r : ℕ) (c : Cpu) (ram : Ram)
    → AreRegisters d s
    → (d ≡ 4 → s ≢ 3)
    → Ensures (λ p. Transfers d s r c p.0 × (p.1 ≡ ram)) (move d s c ram)
unfolding reg move move_a move_x move_y move_q move_of
move-Transfers d s r c ram h odd = ground arith

-- Where Y is not 0, `MV` into Q from Y clears Q and keeps Y, so that Q does not have the value
-- that Y had.
move_q_y_loses :
    (c : Cpu) (ram : Ram)
    → c.y ≢ 0
    → Ensures (λ p. (p.0.q ≡ 0) × (p.0.y ≡ c.y) × ¬ (reg 4 p.0 ≡ reg 3 c)) (move 4 3 c ram)
unfolding reg move move_q
move_q_y_loses c ram h = ground arith

-- With registers in their widths, `INC` behind `DEC` gives every register its value back, for
-- each operand.
increment-decrement : (p r : ℕ) (c : Cpu) → IsCpu c → reg r (increment p (decrement p c)) ≡ reg r c
unfolding reg increment decrement set_flags
increment-decrement p r c h = ground arith

abbrev pub IsIndex : ℕ → Type 0
IsIndex r = (1 ≤ r) × (r ≤ 3)

-- The operands that `ADD` and `SUB` act on.
abbrev pub ArePair : ℕ → ℕ → Type 0
ArePair d s = IsIndex d × IsIndex s × (d ≢ s)

reg-byte : (r : ℕ) (c : Cpu) → IsCpu c → reg r c < 256
unfolding reg
reg-byte r c h = ground arith

add_registers-reg :
    (d s r : ℕ) (c : Cpu)
    → ArePair d s
    → reg r (add_registers d s c) ≡ (if r == d then u8 (reg s c + reg d c) else reg r c)
unfolding reg add_registers
add_registers-reg d s r c h = ground arith

sub_registers-reg :
    (d s r : ℕ) (c : Cpu)
    → ArePair d s
    → reg r (sub_registers d s c) ≡ (if r == d then sub8 (reg s c) (reg d c) else reg r c)
unfolding reg sub_registers set_flags
sub_registers-reg (suc (suc (suc zero))) s r c h = ground arith
sub_registers-reg _ s r c h = ground arith

-- With registers in their widths, a second `SUB` undoes the first on every register, for two
-- different registers of A, X and Y as operands.
sub_registers_twice :
    (d s r : ℕ) (c : Cpu)
    → ArePair d s
    → IsCpu c
    → reg r (sub_registers d s (sub_registers d s c)) ≡ reg r c
sub_registers_twice d s r c p h = ground (
  arith,
  sub_registers-reg d s r (sub_registers d s c) p,
  sub_registers-reg d s r c p,
  sub_registers-reg d s d c p,
  sub_registers-reg d s s c p,
  reg-byte d c h,
  reg-byte s c h,
)

-- With registers in their widths, and two different registers of A, X and Y as operands, `SUB`
-- behind `ADD` leaves the negative of the destination modulo 256, and does not change the other
-- registers.
sub-add_registers :
    (d s r : ℕ) (c : Cpu)
    → ArePair d s
    → IsCpu c
    → reg r (sub_registers d s (add_registers d s c))
      ≡ (if r == d then sub8 0 (reg d c) else reg r c)
sub-add_registers d s r c p h = ground (
  arith,
  sub_registers-reg d s r (add_registers d s c) p,
  add_registers-reg d s r c p,
  add_registers-reg d s d c p,
  add_registers-reg d s s c p,
  reg-byte d c h,
  reg-byte s c h,
)

-- The equal flag that `CMP` computes does not depend on the order of its operands.
equal_bit_comm : (so de : ℕ) (c : Cpu) → equal_bit so de c ≡ equal_bit de so c
unfolding equal_bit
equal_bit_comm so de c = ground arith

-- What `CMP` compares, by its operands: two different registers of A, X and Y with each other, one
-- such register with the other operand as a number, and nothing else.
abbrev is_index : ℕ → Bool
is_index r = leb 1 r && leb r 3

abbrev pub compared : ℕ → ℕ → Cpu → Bool
compared so de c =
    if is_index so
    then (if is_index de && not (so == de) then reg so c == reg de c else reg so c == de)
    else (is_index de && reg de c == so)

equal_bit_index : (so de : ℕ) (c : Cpu) → IsIndex so → equal_bit so de c ≡ bit (compared so de c)
unfolding reg equal_bit
equal_bit_index so de c h =
    let cases : (so ≡ 1) ⊎ (so ≡ 2) ⊎ (so ≡ 3) = omega arith in
    elim cases [
      | inl e ↦ rw e (ground arith)
      | inr (inl e) ↦ rw e (ground arith)
      | inr (inr e) ↦ rw e (ground arith)
    ]

equal_bit_number : (so de : ℕ) (c : Cpu) → ¬ IsIndex so → equal_bit so de c ≡ bit (compared so de c)
unfolding reg equal_bit
equal_bit_number so de c h =
    let one : (so == 1) ≡ false = ground arith in
    let two : (so == 2) ≡ false = ground arith in
    let three : (so == 3) ≡ false = ground arith in
    let none_of : is_index so ≡ false = ground arith in rw (one, two, three, none_of) (ground arith)

-- The equal flag that `CMP` computes, for any two operands: whether two different registers of A, X
-- and Y are equal, whether one such register is equal to the other operand as a number, and false if
-- neither operand names one.
equal_bit_lem : (so de : ℕ) (c : Cpu) → equal_bit so de c ≡ bit (compared so de c)
equal_bit_lem so de c = elim (dec_lt 0 so) [
  | yes low ↦ elim (dec_lt so 4) [
    | yes high ↦ equal_bit_index so de c (omega arith, omega arith)
    | no over ↦ equal_bit_number so de c λ h. omega arith
  ]
  | no under ↦ equal_bit_number so de c λ h. omega arith
]

-- With flags of one bit, exactly one of `JZ` and `JNZ` does what `JMP` does, and so of `JE` and
-- `JNE`; the other changes nothing.
jumps_exclusive :
    (p : ℕ) (c : Cpu)
    → IsCpu c
    → (((jump_zero p c ≡ jump p c) × (jump_not_zero p c ≡ c))
        ⊎ ((jump_zero p c ≡ c) × (jump_not_zero p c ≡ jump p c)))
      × (((jump_equal p c ≡ jump p c) × (jump_not_equal p c ≡ c))
          ⊎ ((jump_equal p c ≡ c) × (jump_not_equal p c ≡ jump p c)))
unfolding jump jump_zero jump_not_zero jump_equal jump_not_equal
jumps_exclusive p c h = ground arith
