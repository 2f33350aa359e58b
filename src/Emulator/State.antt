-- ===== src/Emulator/State.antt =====
-- `struct CPU`, `struct Memory` and `ResetCPU`. An access outside the array of `MAX_MEM` bytes is a
-- fault, `none`.
use sector_os.Base.{
  ℕ, ◌≡◌, ◌<◌, ◌*◌, Option, none, some, ◌==◌, if◌then◌else◌, ltb, update, arith, mul-byte_lt,
}

abbrev pub max_mem : ℕ
max_mem = 65536

abbrev pub Ram : Type 0
Ram = ℕ → ℕ

-- Each flag is a one-bit field.
pub record Cpu : Type 0 where
  pub pc : ℕ  -- uint16_t
  pub sp : ℕ  -- uint16_t
  pub a : ℕ  -- uint8_t, as the five below
  pub x : ℕ
  pub y : ℕ
  pub q : ℕ
  pub k : ℕ
  pub of : ℕ
  pub c : ℕ
  pub e : ℕ
  pub z : ℕ
  pub i : ℕ
  pub d : ℕ
  pub b : ℕ
  pub v : ℕ
  pub n : ℕ

unfoldable pub read : Ram → ℕ → Option ℕ
read ram p = if ltb p max_mem then some (ram p) else none

unfoldable pub write : Ram → ℕ → ℕ → Option Ram
write ram p v = if ltb p max_mem then some (update ram p v) else none

-- `OF == 0x00 ? address : address * OF`, which each case of the switch writes out.
unfoldable pub scale : ℕ → ℕ → ℕ
scale of p = if of == 0 then p else p * of

-- `InitializeMEM` and `ResetCPU`. The offset register is left as it is.
unfoldable pub initialize_mem : Ram → Ram
initialize_mem ram p = if ltb p max_mem then 0 else ram p

unfoldable pub reset_cpu : Cpu → Cpu
reset_cpu s = record s {
  pc = 0xFFFC;
  sp = 0x0100;
  c = 0;
  z = 0;
  i = 0;
  d = 0;
  b = 0;
  v = 0;
  n = 0;
  e = 0;
  a = 0;
  x = 0;
  y = 0;
  q = 0;
  k = 0;
}

pub record IsCpu (s : Cpu) : Type 0 where
  pub pc_range : s.pc < 65536
  pub sp_range : s.sp < 65536
  pub a_range : s.a < 256
  pub x_range : s.x < 256
  pub y_range : s.y < 256
  pub q_range : s.q < 256
  pub k_range : s.k < 256
  pub of_range : s.of < 256
  pub c_range : s.c < 2
  pub e_range : s.e < 2
  pub z_range : s.z < 2
  pub i_range : s.i < 2
  pub d_range : s.d < 2
  pub b_range : s.b < 2
  pub v_range : s.v < 2
  pub n_range : s.n < 2

abbrev pub IsRam : Ram → Type 0
IsRam ram = (p : ℕ) → ram p < 256

pub scale-lt : (of p : ℕ) → of < 256 → p < 256 → scale of p < max_mem
unfolding scale
scale-lt of p ho hp = ground (arith, mul-byte_lt p of hp ho)

pub read_in : (ram : Ram) (p : ℕ) → p < max_mem → read ram p ≡ some (ram p)
unfolding read
read_in ram p h = ground arith

pub write_in : (ram : Ram) (p v : ℕ) → p < max_mem → write ram p v ≡ some (update ram p v)
unfolding write
write_in ram p v h = ground arith

pub update-IsRam : (ram : Ram) (p v : ℕ) → IsRam ram → v < 256 → IsRam (update ram p v)
update-IsRam ram p v h hv j = ground (arith, h j)

pub initialize_mem-IsRam : (ram : Ram) → IsRam ram → IsRam (initialize_mem ram)
unfolding initialize_mem
initialize_mem-IsRam ram h p = ground (arith, h p)

pub reset_cpu-IsCpu : (s : Cpu) → IsCpu s → IsCpu (reset_cpu s)
unfolding reset_cpu
reset_cpu-IsCpu s h = ground arith
