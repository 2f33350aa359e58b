-- ===== src/Memory/Blocks/Search.antt =====
-- The search for a block, and `MemAllocate` against first fit.
use sector_os.Base.{
  ℕ, zero, suc, ◌+◌, ◌≡◌, ◌≤◌, ◌<◌, refl, Bool, true, false, not, ◌&&◌, Option, none, some, ◌>>=◌,
  List, [], ◌∷◌, length, ltb, ◌==◌, arith, Bool-cases, inl, inr, ne→==, ap, sym, ◌∙◌, Ensures,
}
use sector_os.Memory.{MemoryChunk, MemoryManager, find_chunk, claim, mem_allocate}
use sector_os.Memory.Blocks.{
  Block, link, Represents, cut, allocate, claimed, Represents-le, link-full,
}
use sector_os.Memory.Blocks.Split.{claimed-cut}

-- Where the search stops, what it claims, and the blocks behind it, from any block on.
abbrev Found : ℕ → ℕ → ℕ → ℕ → ℕ → (ℕ → MemoryChunk) → List Block → Option (ℕ × List Block) → Type 0
Found fuel size prev a end chunks bs none = find_chunk fuel size (link a bs) chunks ≡ some 0
Found fuel size prev a end chunks bs (some (ptr, bs')) =
    (p : ℕ) × (find_chunk fuel size (link a bs) chunks ≡ some p)
    × (ptr ≡ p + 16)
    × (a ≤ p)
    × (0 < p)
    × (p + 16 ≤ end)
    × (0 < length bs)
    × (0 < length bs')
    × Represents (claimed size p chunks) prev a end bs'
    × ((q : ℕ) → q < p → claimed size p chunks q ≡ chunks q)

module _ (fuel size prev a end n : ℕ) (used : Bool) (chunks : ℕ → MemoryChunk) (bs : List Block)
    (h : Represents chunks prev a end ((n, used) ∷ bs)) where
  tested : (ltb size (chunks a).size && not (chunks a).allocated) ≡ (ltb size n && not used)
  tested = ap (λ (c : MemoryChunk). ltb size c.size && not c.allocated) h.1

  search-next :
      (ltb size n && not used) ≡ false
      → find_chunk (suc fuel) size a chunks ≡ find_chunk fuel size (link (a + 16 + n) bs) chunks
  unfolding find_chunk
  search-next e =
      let nonzero : (a == 0) ≡ false = ne→== a 0 (omega (arith, h.0)) in
      let next_of : (chunks a).next ≡ link (a + 16 + n) bs = ap (λ (c : MemoryChunk). c.next) h.1 in
      rw (nonzero, tested, e, next_of) refl

  search-stop : (ltb size n && not used) ≡ true → find_chunk (suc fuel) size a chunks ≡ some a
  unfolding find_chunk
  search-stop e =
      let nonzero : (a == 0) ≡ false = ne→== a 0 (omega (arith, h.0)) in
      rw (nonzero, tested, e) refl

  Found-next :
      (o : Option (ℕ × List Block))
      → (ltb size n && not used) ≡ false
      → Found fuel size a (a + 16 + n) end chunks bs o
      → Found
          (suc fuel)
          size
          prev
          a
          end
          chunks
          ((n, used) ∷ bs)
          (o >>= λ (p, bs'). some (p, (n, used) ∷ bs'))
  Found-next none e f = search-next e ∙ f
  Found-next (some (ptr, bs')) e (p, found, ptr_of, above, pos, inside, full, full', rep, same) =
      let linked : link (a + 16 + n) bs' ≡ link (a + 16 + n) bs =
        link-full (a + 16 + n) bs' full' ∙ sym (link-full (a + 16 + n) bs full) in
      (
        p,
        search-next e ∙ found,
        ptr_of,
        omega arith,
        pos,
        inside,
        omega arith,
        omega arith,
        (h.0, rw linked (same a (omega arith) ∙ h.1), rep),
        same,
      )

cut-full : (size n : ℕ) (bs : List Block) → 0 < length (cut size n bs)
cut-full size n bs = elim (Bool-cases (ltb (size + 17) n)) [
  | inl e ↦ rw e (omega arith)
  | inr e ↦ rw e (omega arith)
]

search_and_claim :
    (fuel size prev a end : ℕ) (chunks : ℕ → MemoryChunk) (bs : List Block)
    → Represents chunks prev a end bs
    → end < 4294967296
    → length bs < fuel
    → Found fuel size prev a end chunks bs (allocate a size bs)
unfolding find_chunk
search_and_claim (suc fuel) size prev a end chunks [] h fits enough = refl
search_and_claim (suc fuel) size prev a end chunks ((n, used) ∷ bs) h fits enough =
    elim (Bool-cases (ltb size n && not used)) [
      | inl e ↦
          let small : size < n = ground arith in
          let free : used ≡ false = ground arith in
          let le = Represents-le chunks a (a + 16 + n) end bs h.2 in
          let (rep, same) = claimed-cut size a prev n end chunks bs (rw free at h) small fits in
          rw e (
            a,
            search-stop fuel size prev a end n used chunks bs h e,
            refl,
            omega arith,
            h.0,
            omega arith,
            omega arith,
            cut-full size n bs,
            rep,
            same,
          )
      | inr e ↦ rw e (
          Found-next fuel size prev a end n used chunks bs h (allocate (a + 16 + n) size bs) e
            (search_and_claim fuel size a (a + 16 + n) end chunks bs h.2 fits (omega arith)))
    ]
search_and_claim zero size prev a end chunks bs h fits enough = elim enough [ ]

-- What `MemAllocate` returns and leaves, by what first fit says of the blocks.
abbrev pub Refines : ℕ → ℕ → MemoryManager → Option (ℕ × List Block) → ℕ × MemoryManager → Type 0
Refines a end m none r = r ≡ (0, m)
Refines a end m (some (p, bs)) r = (r.0 ≡ p) × (r.1.first ≡ a) × Represents r.1.chunks 0 a end bs

claim-Refines :
    (fuel size end : ℕ) (m : MemoryManager) (b : Block) (bs : List Block)
    (o : Option (ℕ × List Block))
    → end < 4294967296
    → Found fuel size 0 m.first end m.chunks (b ∷ bs) o
    → Ensures (Refines m.first end m o) (mem_allocate fuel size m)
unfolding mem_allocate claim
claim-Refines fuel size end m b bs none fits found = rw found refl
claim-Refines fuel size end m b bs (some (ptr, bs')) fits
      (p, found, ptr_of, above, pos, inside, full, full', rep, same) =
    let nonzero : (p == 0) ≡ false = ne→== p 0 (omega arith) in
    rw (found, nonzero) (omega arith, refl, rep)

-- The heap is filled by blocks from `m.first` to `end`, which is below 4 GiB, at least one, and the fuel
-- is more than their number. `MemAllocate` is first fit on the blocks: where no free block is larger
-- than the request it returns null and changes nothing; otherwise it returns the address that first
-- fit returns, and the heap represents the blocks that first fit leaves.
pub mem_allocate-Refines :
    (fuel size end : ℕ) (m : MemoryManager) (b : Block) (bs : List Block)
    → Represents m.chunks 0 m.first end (b ∷ bs)
    → end < 4294967296
    → length (b ∷ bs) < fuel
    → Ensures (Refines m.first end m (allocate m.first size (b ∷ bs))) (mem_allocate fuel size m)
mem_allocate-Refines fuel size end m b bs h fits enough =
    claim-Refines fuel size end m b bs (allocate m.first size (b ∷ bs)) fits
      (search_and_claim fuel size 0 m.first end m.chunks (b ∷ bs) h fits enough)
