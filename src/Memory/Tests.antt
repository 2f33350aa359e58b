-- ===== src/Memory/Tests.antt =====
-- The heap at concrete inputs.
use sector_os.Base.{
  ℕ, ◌+◌, ◌≡◌, ◌⊎◌, inl, refl, true, false, none, some, [], ◌∷◌, u32, arith, Ensures, update,
}
use sector_os.Memory.{MemoryChunk, MemoryManager, chunk_size, new_manager, mem_allocate, mem_free}
use sector_os.Memory.Allocation.{first_fit, IsAllocated, mem_allocate-IsAllocated}
use sector_os.Memory.Blocks.{allocate}
use sector_os.Memory.Blocks.Search.{Refines, mem_allocate-Refines}
use sector_os.Memory.Freeing.{mem_free_cycle}
use sector_os.Memory.Merging.{behind, mem_free_overruns}

abbrev empty : ℕ → MemoryChunk
empty p = record { next = 0; prev = 0; size = 0; allocated = true }

-- A block in use in front of a free one.
abbrev heap : MemoryManager
heap = record {
  first = 4096;
  chunks =
      update (update empty 4096 (record { next = 4144; prev = 0; size = 32; allocated = true }))
        4144 (record { next = 0; prev = 4096; size = 1000; allocated = false });
}

mem_allocate-IsAllocated_example :
    Ensures
      (λ r.
        ((first_fit heap.chunks 100 (4096 ∷ 4144 ∷ []) ≡ 0) × (r ≡ (0, heap)))
        ⊎ ((r.0 ≡ u32 (first_fit heap.chunks 100 (4096 ∷ 4144 ∷ []) + chunk_size))
            × IsAllocated 100 heap r.1 (first_fit heap.chunks 100 (4096 ∷ 4144 ∷ []))))
      (mem_allocate 3 100 heap)
mem_allocate-IsAllocated_example =
    mem_allocate-IsAllocated 3 100 heap (4096 ∷ 4144 ∷ [])
      (refl, omega arith, (refl, omega arith, refl)) (omega arith)

-- One block that is the whole heap.
abbrev full : MemoryManager
full = record {
  first = 4096;
  chunks = update empty 4096 (record { next = 0; prev = 0; size = 1000; allocated = true });
}

mem_free_cycle_example : mem_allocate 50 1000 (mem_free (4096 + chunk_size) full) ≡ none
mem_free_cycle_example =
    mem_free_cycle 50 1000 4096 full refl (omega arith) (omega arith) refl (inl refl) (omega arith)

mem_free_overruns_example :
    (r : ℕ × MemoryManager) × (mem_allocate 1 100 (new_manager 1000 4096 empty) ≡ some r)
    × ((mem_free r.0 r.1).first ≡ 4096)
    × (((mem_free r.0 r.1).chunks 4096).next ≡ behind 4096 100)
    × (((mem_free r.0 r.1).chunks (behind 4096 100)).allocated ≡ false)
    × (behind 4096 100 + chunk_size + ((mem_free r.0 r.1).chunks (behind 4096 100)).size
        ≡ 4096 + 1000 + 100 + chunk_size)
mem_free_overruns_example =
    mem_free_overruns 4096 1000 100 empty (omega arith) (omega arith) (omega arith)

-- The blocks of the heap above, and the heap behind them.
mem_allocate-Refines_example :
    Ensures
      (Refines 4096 5160 heap (allocate 4096 100 ((32, true) ∷ ((1000, false) ∷ []))))
      (mem_allocate 3 100 heap)
mem_allocate-Refines_example =
    mem_allocate-Refines 3 100 5160 heap (32, true) ((1000, false) ∷ [])
      (omega arith, refl, (omega arith, refl, refl)) (omega arith) (omega arith)
