-- ===== src/Memory/Blocks/Split.antt =====
-- The headers that a claim changes.
use sector_os.Base.{
  ℕ, ◌+◌, ◌-◌, ◌≡◌, ◌≤◌, ◌<◌, ◌≢◌, true, false, List, ◌∷◌, ltb, u32, sub32, arith, Bool-cases, ◌⊎◌,
  inl, inr, ap,
}
use sector_os.Memory.{MemoryChunk, split_chunk}
use sector_os.Memory.Blocks.{
  Block, link, Represents, cut, claimed, Represents-le, Represents-frame, Represents-prev,
  link-cases, link-full,
}

-- The headers behind a claim that splits the chunk at `p`, with a next chunk at `nx` if there is one.
module _ (size p n nx prev : ℕ) (chunks : ℕ → MemoryChunk) (pos : 0 < p)
    (there : chunks p ≡ record { next = nx; prev = prev; size = n; allocated = false })
    (room : size + 17 < n) (fits : p + 16 + n < 4294967296)
    (next : (nx ≡ 0) ⊎ (nx ≡ p + 16 + n)) where
  new_at : u32 (p + 16 + size) ≡ p + 16 + size
  new_at = omega arith

  split-here :
      claimed size p chunks p
      ≡ record { next = p + 16 + size; prev = prev; size = size; allocated = true }
  unfolding split_chunk
  split-here =
      let size_of = ap (λ (c : MemoryChunk). c.size) there in
      let next_of = ap (λ (c : MemoryChunk). c.next) there in
      let prev_of = ap (λ (c : MemoryChunk). c.prev) there in
      ground (arith, size_of, next_of, prev_of, new_at)

  split-new :
      claimed size p chunks (p + 16 + size)
      ≡ record { next = nx; prev = p; size = n - 16 - size; allocated = false }
  unfolding split_chunk
  split-new =
      let size_of = ap (λ (c : MemoryChunk). c.size) there in
      let next_of = ap (λ (c : MemoryChunk). c.next) there in
      let left : sub32 (sub32 n 16) size ≡ n - 16 - size = omega arith in
      ground (arith, size_of, next_of, new_at, left)

  split-next : 0 < nx → claimed size p chunks nx ≡ record (chunks nx) { prev = p + 16 + size }
  unfolding split_chunk
  split-next some_next =
      let size_of = ap (λ (c : MemoryChunk). c.size) there in
      let next_of = ap (λ (c : MemoryChunk). c.next) there in
      ground (arith, size_of, next_of, new_at)

  split-other :
      (q : ℕ) → q ≢ p → q ≢ p + 16 + size → (nx ≡ 0) ⊎ (q ≢ nx) → claimed size p chunks q ≡ chunks q
  unfolding split_chunk
  split-other q a b c =
      let size_of = ap (λ (c : MemoryChunk). c.size) there in
      let next_of = ap (λ (c : MemoryChunk). c.next) there in
      ground (arith, size_of, next_of, new_at)

-- And behind one that does not.
module _ (size p n nx prev : ℕ) (chunks : ℕ → MemoryChunk)
    (there : chunks p ≡ record { next = nx; prev = prev; size = n; allocated = false })
    (no_room : n ≤ size + 17) (small : size + 17 < 4294967296) where
  whole-here :
      claimed size p chunks p ≡ record { next = nx; prev = prev; size = n; allocated = true }
  unfolding split_chunk
  whole-here =
      let size_of = ap (λ (c : MemoryChunk). c.size) there in
      let sum : u32 (size + 17) ≡ size + 17 = omega arith in ground (arith, size_of, there, sum)

  whole-other : (q : ℕ) → q ≢ p → claimed size p chunks q ≡ chunks q
  unfolding split_chunk
  whole-other q a =
      let size_of = ap (λ (c : MemoryChunk). c.size) there in
      let sum : u32 (size + 17) ≡ size + 17 = omega arith in ground (arith, size_of, sum)

-- A claim cuts the block in the list that has the header claimed, and leaves those in front of it.
pub claimed-cut :
    (size p prev n end : ℕ) (chunks : ℕ → MemoryChunk) (bs : List Block)
    → Represents chunks prev p end ((n, false) ∷ bs)
    → size < n
    → end < 4294967296
    → Represents (claimed size p chunks) prev p end (cut size n bs)
      × ((q : ℕ) → q < p → claimed size p chunks q ≡ chunks q)
claimed-cut size p prev n end chunks bs h small fits =
    let le = Represents-le chunks p (p + 16 + n) end bs h.2 in
    let nx = link (p + 16 + n) bs in
    let next = link-cases (p + 16 + n) bs in
    let fit : p + 16 + n < 4294967296 = omega arith in
    elim (Bool-cases (ltb (size + 17) n)) [
      | inl e ↦
          let room : size + 17 < n = ground arith in
          let here = split-here size p n nx prev chunks h.0 h.1 room fit next in
          let new = split-new size p n nx prev chunks h.0 h.1 room fit next in
          let other = split-other size p n nx prev chunks h.0 h.1 room fit next in
          let tail_at : p + 16 + size + 16 + (n - 16 - size) ≡ p + 16 + n = omega arith in
          let tail : Represents (claimed size p chunks) (p + 16 + size) (p + 16 + n) end bs =
            Represents-prev chunks (claimed size p chunks) p (p + 16 + size) (p + 16 + n) end bs
              (λ q above. other q (omega arith) (omega arith) (inr (omega arith)))
              (λ full.
                let at = link-full (p + 16 + n) bs full in
                rw at at (split-next size p n nx prev chunks h.0 h.1 room fit next (omega arith)))
              h.2 in
          let unlinked : (q : ℕ) → q < p → (nx ≡ 0) ⊎ (q ≢ nx) =
            λ q below. elim next [ inl z ↦ inl z | inr at ↦ inr (omega arith) ] in
          rw e (
            (h.0, here, (omega arith, rw tail_at new, rw tail_at tail)),
            λ q below. other q (omega arith) (omega arith) (unlinked q below),
          )
      | inr e ↦
          let no_room : n ≤ size + 17 = ground arith in
          let other = whole-other size p n nx prev chunks h.1 no_room (omega arith) in
          rw e (
            (
              h.0,
              whole-here size p n nx prev chunks h.1 no_room (omega arith),
              Represents-frame chunks (claimed size p chunks) p (p + 16 + n) end bs
                  (λ q above. other q (omega arith)) h.2,
            ),
            λ q below. other q (omega arith),
          )
    ]
