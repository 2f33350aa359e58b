-- ===== src/Memory/Allocation.antt =====
-- What `MemAllocate` finds, and what it does to the headers.
use sector_os.Base.{
  ℕ, zero, suc, ◌+◌, ◌≡◌, ◌≤◌, ◌<◌, refl, ◌≢◌, ◌⊎◌, inl, inr, true, false, not, ◌&&◌, some, List,
  [], ◌∷◌, length, ltb, ◌==◌, if◌then◌else◌, u32, arith, Ensures, Bool-cases, ne→==,
}
use sector_os.Memory.{
  MemoryChunk, MemoryManager, chunk_size, find_chunk, split_chunk, claim, mem_allocate,
}

-- The chunks from `p` on, in the order of their links.
abbrev pub IsChain : (ℕ → MemoryChunk) → ℕ → List ℕ → Type 0
IsChain chunks p [] = p ≡ 0
IsChain chunks p (q ∷ qs) = (p ≡ q) × (q ≢ 0) × IsChain chunks (chunks q).next qs

-- The first chunk of a list that serves a request, 0 if none does.
abbrev pub first_fit : (ℕ → MemoryChunk) → ℕ → List ℕ → ℕ
first_fit chunks size [] = 0
first_fit chunks size (q ∷ qs) =
    if ltb size (chunks q).size && not (chunks q).allocated then q else first_fit chunks size qs

find_chunk-first_fit :
    (fuel size p : ℕ) (chunks : ℕ → MemoryChunk) (qs : List ℕ)
    → IsChain chunks p qs
    → length qs < fuel
    → find_chunk fuel size p chunks ≡ some (first_fit chunks size qs)
unfolding find_chunk
find_chunk-first_fit (suc fuel) size p chunks [] h lt = ground arith
find_chunk-first_fit (suc fuel) size p chunks (q ∷ qs) h lt =
    let rest = find_chunk-first_fit fuel size (chunks q).next chunks qs h.2 (omega arith) in
    let nonzero : (q == 0) ≡ false = ne→== q 0 h.1 in
    rw (h.0, rest, nonzero)
      (elim (Bool-cases (ltb size (chunks q).size && not (chunks q).allocated)) [
        | inl e ↦ rw e refl
        | inr e ↦ rw e refl
      ])
find_chunk-first_fit zero size p chunks qs h lt = elim lt [ ]

-- What the block behind a successful allocation is: a chunk that was free and large enough, now
-- allocated and still large enough. All headers but its own, the one behind the block and the next
-- one of the chain are as they were.
pub record IsAllocated (size : ℕ) (m m' : MemoryManager) (p : ℕ) : Type 0 where
  pub was_free : (m.chunks p).allocated ≡ false
  pub was_large : size < (m.chunks p).size
  pub is_taken : (m'.chunks p).allocated ≡ true
  pub is_large : size ≤ (m'.chunks p).size
  pub others :
      (q : ℕ)
      → q ≢ p
      → q ≢ u32 (p + chunk_size + size)
      → q ≢ (m.chunks p).next
      → m'.chunks q ≡ m.chunks q
  pub same_first : m'.first ≡ m.first

split-size :
    (size p : ℕ) (chunks : ℕ → MemoryChunk)
    → size < (chunks p).size
    → size ≤ (split_chunk size p chunks p).size
unfolding split_chunk
split-size size p chunks h = ground arith

split-others :
    (size p q : ℕ) (chunks : ℕ → MemoryChunk)
    → q ≢ p
    → q ≢ u32 (p + chunk_size + size)
    → q ≢ (chunks p).next
    → split_chunk size p chunks q ≡ chunks q
unfolding split_chunk
split-others size p q chunks a b c = ground arith

claim-IsAllocated :
    (size p : ℕ) (m : MemoryManager)
    → p ≢ 0
    → (m.chunks p).allocated ≡ false
    → size < (m.chunks p).size
    → IsAllocated size m (claim size m p).1 p
unfolding claim
claim-IsAllocated size p m ne free large = record {
  was_free = free;
  was_large = large;
  is_taken = ground arith;
  is_large = ground (arith, split-size size p m.chunks);
  others = λ q a b c. ground (arith, split-others size p q m.chunks);
  same_first = ground arith;
}

first_fit-fits :
    (chunks : ℕ → MemoryChunk) (size : ℕ) (qs : List ℕ)
    → first_fit chunks size qs ≢ 0
    → ((chunks (first_fit chunks size qs)).allocated ≡ false)
      × (size < (chunks (first_fit chunks size qs)).size)
first_fit-fits chunks size [] ne = absurd (ne refl)
first_fit-fits chunks size (q ∷ qs) ne =
    let rest = first_fit-fits chunks size qs in
    elim (Bool-cases (ltb size (chunks q).size && not (chunks q).allocated)) [
      | inl e ↦ rw e (ground arith)
      | inr e ↦ rw e (rest (rw e at ne))
    ]

-- With a chain of chunks and more fuel than it has, the allocation ends: it returns null and changes
-- nothing if no free chunk is larger than the request, and otherwise takes the first that is.
pub mem_allocate-IsAllocated :
    (fuel size : ℕ) (m : MemoryManager) (qs : List ℕ)
    → IsChain m.chunks m.first qs
    → length qs < fuel
    → Ensures
        (λ r.
          ((first_fit m.chunks size qs ≡ 0) × (r ≡ (0, m)))
          ⊎ ((r.0 ≡ u32 (first_fit m.chunks size qs + chunk_size))
              × IsAllocated size m r.1 (first_fit m.chunks size qs)))
        (mem_allocate fuel size m)
unfolding mem_allocate
mem_allocate-IsAllocated fuel size m qs h lt =
    let p = first_fit m.chunks size qs in
    rw (find_chunk-first_fit fuel size m.first m.chunks qs h lt) (elim (Bool-cases (p == 0)) [
      | inl e ↦ inl (ground arith, unfold claim in ground arith)
      | inr e ↦
          let ne : p ≢ 0 = ground arith in
          let fits = first_fit-fits m.chunks size qs ne in
          inr (unfold claim in ground arith, claim-IsAllocated size p m ne fits.0 fits.1)
    ])
