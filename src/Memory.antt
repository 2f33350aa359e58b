-- ===== src/Memory.antt =====
-- Memory/MemoryManagement.cpp: the heap of the kernel. A chunk's header stands at an address, and
-- the null pointer is 0; pointers and `size_t` have 32 bits. The memory behind the headers is not
-- looked at.
pub mod Allocation
pub mod Blocks
pub mod Freeing
pub mod Merging
mod Tests
use sector_os.Base.{
  ℕ, zero, suc, ◌+◌, Bool, true, false, not, ◌&&◌, Option, none, some, ◌>>=◌, ltb, leb, ◌==◌,
  if◌then◌else◌, u32, sub32, update,
}

pub record MemoryChunk : Type 0 where
  pub next : ℕ
  pub prev : ℕ
  pub size : ℕ
  pub allocated : Bool

pub record MemoryManager : Type 0 where
  pub first : ℕ
  pub chunks : ℕ → MemoryChunk

-- `sizeof(MemoryChunk)`: two pointers, a size, and a flag with its padding.
abbrev pub chunk_size : ℕ
chunk_size = 16

abbrev pub change : (MemoryChunk → MemoryChunk) → ℕ → (ℕ → MemoryChunk) → ℕ → MemoryChunk
change f p chunks = update chunks p (f (chunks p))

-- The constructor; a manager is a single pointer of four bytes.
unfoldable pub new_manager : ℕ → ℕ → (ℕ → MemoryChunk) → MemoryManager
new_manager size start chunks =
    if ltb size 4 then record { first = 0; chunks = chunks } else record {
      first = start;
      chunks =
          update chunks start
            (record { next = 0; prev = 0; size = sub32 size chunk_size; allocated = false });
    }

-- The search of `MemAllocate`, on fuel: the first free chunk that is larger than the request, or 0.
unfoldable pub find_chunk : ℕ → ℕ → ℕ → (ℕ → MemoryChunk) → Option ℕ
find_chunk zero size p chunks = none
find_chunk (suc fuel) size p chunks =
    let rest = find_chunk fuel size (chunks p).next chunks in
    if p == 0
    then some 0
    else if ltb size (chunks p).size && not (chunks p).allocated
    then some p
    else rest

-- A new header behind the request, if there is room for one and more.
unfoldable pub split_chunk : ℕ → ℕ → (ℕ → MemoryChunk) → ℕ → MemoryChunk
split_chunk size p chunks =
    let new = u32 (p + chunk_size + size) in
    let old = chunks p in
    let placed = update chunks new (record {
      next = old.next;
      prev = p;
      size = sub32 (sub32 old.size chunk_size) size;
      allocated = false;
    }) in
    let linked =
      if old.next == 0 then placed else change (λ c. record c { prev = new }) old.next placed in
    if ltb (u32 (size + chunk_size + 1)) old.size
    then change (λ c. record c { next = new; size = size }) p linked
    else chunks

-- What follows the search: the pointer that is returned, and the manager.
unfoldable pub claim : ℕ → MemoryManager → ℕ → ℕ × MemoryManager
claim size m p = if p == 0 then (0, m) else (
  u32 (p + chunk_size),
  record m { chunks = change (λ c. record c { allocated = true }) p (split_chunk size p m.chunks) },
)

unfoldable pub mem_allocate : ℕ → ℕ → MemoryManager → Option (ℕ × MemoryManager)
mem_allocate fuel size m = find_chunk fuel size m.first m.chunks >>= λ p. some (claim size m p)

unfoldable pub is_free : ℕ → MemoryManager → Bool
is_free p m = not (p == 0) && not (m.chunks p).allocated

-- The three branches of `MemFree`, behind the reset of the flag.
unfoldable pub merge_left : ℕ → MemoryManager → MemoryManager
merge_left p m =
    let old = m.chunks p in
    let grown =
      change (λ c. record c { size = u32 (c.size + u32 (old.size + chunk_size)); next = old.next })
        old.prev m.chunks in
    record m {
      chunks =
          (if old.next == 0
            then grown
            else change (λ c. record c { prev = old.prev }) old.next grown);
    }

unfoldable pub merge_right : ℕ → MemoryManager → MemoryManager
merge_right p m =
    let old = m.chunks p in
    let grown =
      change (λ c. record c { size = u32 (c.size + u32 (old.size + chunk_size)); prev = old.prev })
        old.next m.chunks in
    record m {
      chunks =
          (if old.prev == 0
            then grown
            else change (λ c. record c { next = old.next }) old.prev grown);
    }

unfoldable pub move_first : ℕ → MemoryManager → MemoryManager
move_first p m = record {
  first = p;
  chunks =
      change (λ c. record c { prev = p }) m.first
        (change (λ c. record c { prev = 0; next = m.first }) p m.chunks);
}

unfoldable pub mem_free : ℕ → MemoryManager → MemoryManager
mem_free ptr m =
    let p = sub32 ptr chunk_size in
    let t = record m { chunks = change (λ c. record c { allocated = false }) p m.chunks } in
    if is_free (m.chunks p).prev t
    then merge_left p t
    else if is_free (m.chunks p).next t
    then merge_right p t
    else move_first p t

-- The copy of the old memory is not looked at. The old block is freed even where the new allocation
-- has failed.
unfoldable pub mem_reallocate : ℕ → ℕ → ℕ → MemoryManager → Option (ℕ × MemoryManager)
mem_reallocate fuel ptr size m =
    if ptr == 0
    then mem_allocate fuel size m
    else if leb size (m.chunks (sub32 ptr chunk_size)).size
    then some (ptr, m)
    else (mem_allocate fuel size m >>= λ (q, t). some (q, mem_free ptr t))
