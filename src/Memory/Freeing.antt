-- ===== src/Memory/Freeing.antt =====
-- What `MemFree` does to a chunk without a free neighbour.
use sector_os.Base.{
  ℕ, zero, suc, ◌+◌, ◌≡◌, ◌≤◌, ◌<◌, refl, ◌≢◌, ◌⊎◌, true, false, none, sub32, arith,
}
use sector_os.Memory.{
  MemoryChunk, MemoryManager, change, chunk_size, find_chunk, mem_allocate, mem_free, move_first,
  is_free,
}

find_chunk-cycle :
    (fuel size p : ℕ) (chunks : ℕ → MemoryChunk)
    → p ≢ 0
    → (chunks p).next ≡ p
    → (chunks p).size ≤ size
    → find_chunk fuel size p chunks ≡ none
unfolding find_chunk
find_chunk-cycle zero size p chunks ne loop small = refl
find_chunk-cycle (suc fuel) size p chunks ne loop small =
    let rest = find_chunk-cycle fuel size p chunks ne loop small in rw loop (ground (arith, rest))

freed : ℕ → MemoryManager → MemoryManager
freed p m = record m { chunks = change (λ c. record c { allocated = false }) p m.chunks }

mem_free-move_first :
    (p : ℕ) (m : MemoryManager)
    → p + chunk_size < 4294967296
    → (m.chunks p).prev ≡ 0
    → ((m.chunks p).next ≡ 0)
      ⊎ (((m.chunks p).next ≢ p) × ((m.chunks (m.chunks p).next).allocated ≡ true))
    → mem_free (p + chunk_size) m ≡ move_first p (freed p m)
unfolding mem_free is_free freed
mem_free-move_first p m fit prev next =
    let back : sub32 (p + 16) 16 ≡ p = omega arith in rw (mem_free, back, prev) (ground arith)

first-move_first :
    (p : ℕ) (m : MemoryManager)
    → m.first ≡ p
    → ((move_first p (freed p m)).first ≡ p)
      × (((move_first p (freed p m)).chunks p).next ≡ p)
      × (((move_first p (freed p m)).chunks p).size ≡ (m.chunks p).size)
unfolding move_first freed
first-move_first p m f = rw f (refl, ground arith, ground arith)

-- Freeing the first chunk, which has none in front of it, stands at an address that is not null
-- and has its block at an address that does not wrap, when the next chunk is allocated or there
-- is none, links the chunk to itself: a later request that is not smaller than the chunk is
-- searched for without end, so that no fuel is enough for it.
pub mem_free_cycle :
    (fuel size p : ℕ) (m : MemoryManager)
    → m.first ≡ p
    → p ≢ 0
    → p + chunk_size < 4294967296
    → (m.chunks p).prev ≡ 0
    → ((m.chunks p).next ≡ 0)
      ⊎ (((m.chunks p).next ≢ p) × ((m.chunks (m.chunks p).next).allocated ≡ true))
    → (m.chunks p).size ≤ size
    → mem_allocate fuel size (mem_free (p + chunk_size) m) ≡ none
unfolding mem_allocate
mem_free_cycle fuel size p m f ne fit prev next small =
    let t = move_first p (freed p m) in
    let (first, loop, same) = first-move_first p m f in
    let never = find_chunk-cycle fuel size p t.chunks ne loop (omega (arith, same)) in
    rw (mem_free-move_first p m fit prev next, first, never)
