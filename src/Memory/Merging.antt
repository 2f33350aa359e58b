-- ===== src/Memory/Merging.antt =====
-- What `MemFree` does to a chunk whose right neighbour is free.
use sector_os.Base.{
  ℕ, ◌+◌, ◌-◌, ◌≡◌, ◌<◌, ◌≢◌, true, false, some, ltb, u32, sub32, update, arith, ap, ◌∙◌,
}
use sector_os.Memory.{
  MemoryChunk, MemoryManager, chunk_size, new_manager, find_chunk, split_chunk, claim, mem_allocate,
  mem_free, merge_right, is_free,
}

-- The chunk behind the first block of `n` bytes, and a heap of `total` bytes that holds the two.
abbrev pub behind : ℕ → ℕ → ℕ
behind start n = start + 16 + n

two_chunks : ℕ → ℕ → ℕ → (ℕ → MemoryChunk) → MemoryManager
two_chunks start total n chunks = record {
  first = start;
  chunks =
      update
        (update chunks (behind start n)
          (record { next = 0; prev = start; size = total - 32 - n; allocated = false }))
        start (record { next = behind start n; prev = 0; size = n; allocated = true });
}

mem_free-next :
    (p q : ℕ) (m : MemoryManager)
    → p + chunk_size < 4294967296
    → (m.chunks p).prev ≡ 0
    → (m.chunks p).next ≡ q
    → q ≢ 0
    → q ≢ p
    → (m.chunks q).allocated ≡ false
    → ((mem_free (p + chunk_size) m).first ≡ m.first)
      × (((mem_free (p + chunk_size) m).chunks p).next ≡ q)
      × (((mem_free (p + chunk_size) m).chunks q).allocated ≡ false)
      × (((mem_free (p + chunk_size) m).chunks q).size
          ≡ u32 ((m.chunks q).size + u32 ((m.chunks p).size + chunk_size)))
unfolding mem_free is_free merge_right
mem_free-next p q m fit prev next ne apart free =
    let back : sub32 (p + 16) 16 ≡ p = omega arith in
    rw (mem_free, back, prev, next) (ground arith, ground arith, ground arith, ground arith)

module _ (start total n : ℕ) (chunks : ℕ → MemoryChunk) (pos : 0 < start) (room : n + 33 < total)
    (small : start + total < 4294967296) where
  fresh_allocate :
      (r : ℕ × MemoryManager) × (mem_allocate 1 n (new_manager total start chunks) ≡ some r)
      × (r.0 ≡ start + 16)
      × (r.1.first ≡ start)
      × (r.1.chunks start ≡ (two_chunks start total n chunks).chunks start)
      × (r.1.chunks (behind start n) ≡ (two_chunks start total n chunks).chunks (behind start n))
  unfolding mem_allocate new_manager find_chunk claim split_chunk two_chunks
  fresh_allocate =
      let large : ltb total 4 ≡ false = ground arith in
      let found : find_chunk 1 n start (new_manager total start chunks).chunks ≡ some start =
        ground arith in
      (
        claim n (new_manager total start chunks) start,
        ground (arith, found),
        ground arith,
        ground arith,
        ground arith,
        ground arith,
      )

-- In a fresh heap of `total` bytes at an address that is not null, which ends below 4 GiB and has
-- more than 33 bytes beyond the `n` that are asked for, freeing the first block joins it to the
-- chunk behind it. That chunk is free, is linked to, and grows without moving, so that it reaches
-- past the end of the heap, by `n` bytes and the size of a header.
pub mem_free_overruns :
    (start total n : ℕ) (chunks : ℕ → MemoryChunk)
    → 0 < start
    → n + 33 < total
    → start + total < 4294967296
    → (r : ℕ × MemoryManager) × (mem_allocate 1 n (new_manager total start chunks) ≡ some r)
      × ((mem_free r.0 r.1).first ≡ start)
      × (((mem_free r.0 r.1).chunks start).next ≡ behind start n)
      × (((mem_free r.0 r.1).chunks (behind start n)).allocated ≡ false)
      × (behind start n + chunk_size + ((mem_free r.0 r.1).chunks (behind start n)).size
          ≡ start + total + n + chunk_size)
unfolding two_chunks
mem_free_overruns start total n chunks pos room small =
    let (r, e, ptr, first, at_start, at_next) =
      fresh_allocate start total n chunks pos room small in
    let apart : behind start n ≢ start = omega arith in
    let head : r.1.chunks start
        ≡ record { next = behind start n; prev = 0; size = n; allocated = true } =
      ground (arith, at_start) in
    let tail : r.1.chunks (behind start n)
        ≡ record { next = 0; prev = start; size = total - 32 - n; allocated = false } =
      ground (arith, at_next) in
    let joined =
      mem_free-next start (behind start n) r.1 (omega arith) (ap (λ (c : MemoryChunk). c.prev) head)
        (ap (λ (c : MemoryChunk). c.next) head) (omega arith) apart
        (ap (λ (c : MemoryChunk). c.allocated) tail) in
    let n_size : (r.1.chunks start).size ≡ n = ap (λ (c : MemoryChunk). c.size) head in
    let t_size : (r.1.chunks (behind start n)).size ≡ total - 32 - n =
      ap (λ (c : MemoryChunk). c.size) tail in
    (
      r,
      e,
      rw ptr (joined.0 ∙ first),
      rw ptr joined.1,
      rw ptr joined.2,
      rw ptr (rw (joined.3, n_size, t_size) (omega arith)),
    )
