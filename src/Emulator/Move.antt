-- ===== src/Emulator/Move.antt =====
-- The case INS_MV, after its two operands are fetched: the destination 0x01 to 0x04 is A, X, Y or
-- Q, 0x06 is OF, and any other an address; a source is a register or an address.
use sector_os.Base.{ℕ, Option, some, ◌>>=◌, ◌==◌, if◌then◌else◌}
use sector_os.Emulator.State.{Cpu, Ram, read, write, scale}

unfoldable pub move_a : ℕ → Cpu → Ram → Option Cpu
move_a source s ram =
    if source == 0x02
    then some (record s { a = s.x; x = 0 })
    else if source == 0x03
    then some (record s { a = s.y; y = 0 })
    else if source == 0x04
    then some (record s { a = s.q; q = 0 })
    else if source == 0x05
    then some (record s { a = s.k; k = 0 })
    else (read ram (scale s.of source) >>= λ v. some (record s { a = v }))

unfoldable pub move_x : ℕ → Cpu → Ram → Option Cpu
move_x source s ram =
    if source == 0x01
    then some (record s { x = s.a; a = 0 })
    else if source == 0x03
    then some (record s { x = s.y; y = 0 })
    else if source == 0x04
    then some (record s { x = s.q; q = 0 })
    else if source == 0x05
    then some (record s { x = s.k; k = 0 })
    else (read ram (scale s.of source) >>= λ v. some (record s { x = v }))

unfoldable pub move_y : ℕ → Cpu → Ram → Option Cpu
move_y source s ram =
    if source == 0x01
    then some (record s { y = s.a; a = 0 })
    else if source == 0x02
    then some (record s { y = s.x; x = 0 })
    else if source == 0x04
    then some (record s { y = s.q; q = 0 })
    else if source == 0x05
    then some (record s { y = s.k; k = 0 })
    else (read ram (scale s.of source) >>= λ v. some (record s { y = v }))

-- From Y the source assigns `Q = Y` and then `Q = 0`.
unfoldable pub move_q : ℕ → Cpu → Ram → Option Cpu
move_q source s ram =
    if source == 0x01
    then some (record s { q = s.a; a = 0 })
    else if source == 0x02
    then some (record s { q = s.x; x = 0 })
    else if source == 0x03
    then some (let t = record s { q = s.y } in record t { q = 0 })
    else if source == 0x05
    then some (record s { q = s.k; k = 0 })
    else (read ram (scale s.of source) >>= λ v. some (record s { q = v }))

-- A memory source is not scaled here.
unfoldable pub move_of : ℕ → Cpu → Ram → Option Cpu
move_of source s ram =
    if source == 0x01
    then some (record s { of = s.a; a = 0 })
    else if source == 0x02
    then some (record s { of = s.x; x = 0 })
    else if source == 0x03
    then some (record s { of = s.y; y = 0 })
    else if source == 0x04
    then some (record s { of = s.q; q = 0 })
    else (read ram source >>= λ v. some (record s { of = v }))

-- A store of a register keeps the register; a copy from memory to memory is not scaled.
unfoldable pub move_memory : ℕ → ℕ → Cpu → Ram → Option Ram
move_memory destination source s ram =
    if source == 0x01
    then write ram (scale s.of destination) s.a
    else if source == 0x02
    then write ram (scale s.of destination) s.x
    else if source == 0x03
    then write ram (scale s.of destination) s.y
    else if source == 0x04
    then write ram (scale s.of destination) s.q
    else (read ram source >>= λ v. write ram destination v)

keep_ram : Ram → Option Cpu → Option (Cpu × Ram)
keep_ram ram m = m >>= λ s. some (s, ram)

unfoldable pub move : ℕ → ℕ → Cpu → Ram → Option (Cpu × Ram)
unfolding keep_ram
move destination source s ram =
    if destination == 0x01
    then keep_ram ram (move_a source s ram)
    else if destination == 0x02
    then keep_ram ram (move_x source s ram)
    else if destination == 0x03
    then keep_ram ram (move_y source s ram)
    else if destination == 0x04
    then keep_ram ram (move_q source s ram)
    else if destination == 0x06
    then keep_ram ram (move_of source s ram)
    else (move_memory destination source s ram >>= λ r. some (s, r))
