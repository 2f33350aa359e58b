-- ===== src/Drivers/Card/Buffers.antt =====
-- Where the buffers of a ring lie.
use sector_os.Base.{ℕ, ◌+◌, ◌<◌, ◌≤◌, arith}
use sector_os.Drivers.Card.{Descriptor, buffer_address, send_descriptor, recv_descriptor}

-- The buffers of the eight send descriptors, and those of the eight receive descriptors, all begin within
-- 64 bytes of one another. The array does not reach
-- the end of the address space.
pub buffers_overlap :
    (base i j : ℕ) (fresh fresh' : Descriptor)
    → base + 71 < 4294967296
    → i < 8
    → j < 8
    → ((send_descriptor base i).address ≤ (send_descriptor base j).address + 64)
      × ((recv_descriptor base i fresh).address ≤ (recv_descriptor base j fresh').address + 64)
unfolding send_descriptor recv_descriptor buffer_address
buffers_overlap base i j fresh fresh' fits hi hj = omega arith
