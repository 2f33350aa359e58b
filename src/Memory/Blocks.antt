-- ===== src/Memory/Blocks.antt =====
-- The heap as a list of blocks that fill it from one end to the other, and `MemAllocate` as first fit
-- on that list.
pub mod Split
pub mod Search
use sector_os.Base.{
  ℕ, zero, suc, ◌+◌, ◌-◌, ◌≡◌, ◌≤◌, ◌<◌, refl, ◌≢◌, Bool, true, false, not, ◌&&◌, Option, none,
  some, ◌>>=◌, List, [], ◌∷◌, length, ltb, ◌==◌, if◌then◌else◌, u32, sub32, update, arith,
  Bool-cases, ◌⊎◌, inl, inr, ne→==, eq→==, lt→ltb, ge→ltb, ap, sym, ◌∙◌, Ensures, Ensures-some,
  update_self, update_ne,
}
use sector_os.Memory.{
  MemoryChunk, MemoryManager, chunk_size, change, find_chunk, split_chunk, claim, mem_allocate,
}

-- The size of a block, and whether it is in use.
abbrev pub Block : Type 0
Block = ℕ × Bool

-- The address that a link to the rest of the list holds.
abbrev pub link : ℕ → List Block → ℕ
link a [] = 0
link a (b ∷ bs) = a

-- From the address `a` on, the headers are those of the blocks, one behind the other up to `end`, and
-- linked in both directions.
abbrev pub Represents : (ℕ → MemoryChunk) → ℕ → ℕ → ℕ → List Block → Type 0
Represents chunks prev a end [] = a ≡ end
Represents chunks prev a end ((n, used) ∷ bs) =
    (0 < a)
    × (chunks a ≡ record { next = link (a + 16 + n) bs; prev = prev; size = n; allocated = used })
    × Represents chunks a (a + 16 + n) end bs

-- First fit: the address behind the header of the first free block that is larger than the request,
-- and the blocks, with the rest of that one split off if it has room for a header and more.
abbrev pub cut : ℕ → ℕ → List Block → List Block
cut size n bs =
    if ltb (size + 17) n then (size, true) ∷ ((n - 16 - size, false) ∷ bs) else (n, true) ∷ bs

abbrev pub allocate : ℕ → ℕ → List Block → Option (ℕ × List Block)
allocate a size [] = none
allocate a size ((n, used) ∷ bs) =
    if ltb size n && not used
    then some (a + 16, cut size n bs)
    else (allocate (a + 16 + n) size bs >>= λ (p, bs'). some (p, (n, used) ∷ bs'))

pub Represents-le :
    (chunks : ℕ → MemoryChunk) (prev a end : ℕ) (bs : List Block)
    → Represents chunks prev a end bs
    → a ≤ end
Represents-le chunks prev a end [] h = omega arith
Represents-le chunks prev a end ((n, used) ∷ bs) h =
    omega (arith, Represents-le chunks a (a + 16 + n) end bs h.2)

-- Headers in front of the blocks do not matter.
pub Represents-frame :
    (chunks chunks' : ℕ → MemoryChunk) (prev a end : ℕ) (bs : List Block)
    → ((q : ℕ) → a ≤ q → chunks' q ≡ chunks q)
    → Represents chunks prev a end bs
    → Represents chunks' prev a end bs
Represents-frame chunks chunks' prev a end [] same h = h
Represents-frame chunks chunks' prev a end ((n, used) ∷ bs) same h = (
  h.0,
  same a (omega arith) ∙ h.1,
  Represents-frame chunks chunks' a (a + 16 + n) end bs (λ q le. same q (omega arith)) h.2,
)

-- The first block's link to the left, changed.
pub Represents-prev :
    (chunks chunks' : ℕ → MemoryChunk) (prev prev' a end : ℕ) (bs : List Block)
    → ((q : ℕ) → a < q → chunks' q ≡ chunks q)
    → (0 < length bs → chunks' a ≡ record (chunks a) { prev = prev' })
    → Represents chunks prev a end bs
    → Represents chunks' prev' a end bs
Represents-prev chunks chunks' prev prev' a end [] same head h = h
Represents-prev chunks chunks' prev prev' a end ((n, used) ∷ bs) same head h = (
  h.0,
  head (omega arith) ∙ ap (λ (c : MemoryChunk). record c { prev = prev' }) h.1,
  Represents-frame chunks chunks' a (a + 16 + n) end bs (λ q le. same q (omega arith)) h.2,
)

abbrev pub claimed : ℕ → ℕ → (ℕ → MemoryChunk) → ℕ → MemoryChunk
claimed size p chunks = change (λ c. record c { allocated = true }) p (split_chunk size p chunks)

pub link-cases : (a : ℕ) (bs : List Block) → (link a bs ≡ 0) ⊎ (link a bs ≡ a)
link-cases a [] = inl refl
link-cases a (b ∷ bs) = inr refl

pub link-full : (a : ℕ) (bs : List Block) → 0 < length bs → link a bs ≡ a
link-full a [] h = elim h [ ]
link-full a (b ∷ bs) h = refl
