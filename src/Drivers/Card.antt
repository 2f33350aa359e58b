-- ===== src/Drivers/Card.antt =====
-- Drivers/AM79C973.cpp, the driver of the network card: the rings of descriptors by which it sends and
-- receives. The buffers lie in a memory of bytes. What is printed is left out, and the
-- card does not touch a descriptor while the driver looks at it.
pub mod Ring
pub mod Buffers
use sector_os.Base.{
  ◌*◌, ◌/◌, u32, update, ℕ, zero, suc, ◌+◌, ◌-◌, ◌%◌, Bool, true, false, not, ◌&&◌, Option, none,
  some, ◌>>=◌, List, [], ◌∷◌, ◌++◌, get_elem?, set, take, drop, ltb, ◌==◌, if◌then◌else◌, bit_and,
  bit_or,
}

-- `BufferDescriptor`
pub record Descriptor : Type 0 where
  pub address : ℕ
  pub flags : ℕ
  pub flags2 : ℕ
  pub avail : ℕ

pub record Card : Type 0 where
  pub send_descriptors : List Descriptor
  pub current_send : ℕ
  pub recv_descriptors : List Descriptor
  pub current_recv : ℕ
  pub memory : ℕ → ℕ

-- `&sendBuffers[i]` or `&recvBuffers[i]` from the address of the array, rounded up to a multiple of 16:
-- the array has rows of eight bytes.
unfoldable pub buffer_address : ℕ → ℕ → ℕ
buffer_address base i = u32 (u32 (base + 8 * i) + 15) / 16 * 16

-- The descriptors that the constructor sets up; `fresh` is what their memory holds before.
unfoldable pub send_descriptor : ℕ → ℕ → Descriptor
send_descriptor base i = record {
  address = buffer_address base i;
  flags = bit_or 0x7FF 0xF000;
  flags2 = 0;
  avail = 0;
}

unfoldable pub recv_descriptor : ℕ → ℕ → Descriptor → Descriptor
recv_descriptor base i fresh = record fresh {
  address = buffer_address base i;
  flags = bit_or 0xF7FF 0x80000000;
  flags2 = 0;
}

abbrev pub read_bytes : ℕ → ℕ → (ℕ → ℕ) → List ℕ
read_bytes zero at memory = []
read_bytes (suc n) at memory = memory at ∷ read_bytes n (at + 1) memory

abbrev pub write_bytes : ℕ → List ℕ → (ℕ → ℕ) → ℕ → ℕ
write_bytes at [] memory = memory
write_bytes at (b ∷ bs) memory = update (write_bytes (at + 1) bs memory) at b

-- A raw data handler, over a state of its own: whether the buffer is to be sent, the buffer as it
-- leaves it, and the state. It does not call the driver itself. `none` is a fault.
abbrev pub RawHandler : Type 0 → Type 0
RawHandler S = S → List ℕ → ℕ → Option (Bool × List ℕ × S)

-- The size that is sent, and the descriptor for it.
unfoldable pub sent_size : ℕ → ℕ
sent_size size = if ltb 1518 size then 1518 else size

unfoldable pub prepared : ℕ → Descriptor → Descriptor
prepared n d = record d {
  flags = bit_or 0x8300F000 ((4096 - n % 4096) % 4096);
  flags2 = 0;
  avail = 0;
}

-- `send`; the size is below 2^31.
unfoldable pub send_raw : List ℕ → ℕ → Card → Option Card
send_raw buffer size c = do
  d ← get_elem? c.send_descriptors c.current_send
  some (record c {
    send_descriptors = set c.send_descriptors c.current_send (prepared (sent_size size) d);
    current_send = (c.current_send + 1) % 8;
    memory = write_bytes d.address (take (sent_size size) buffer) c.memory;
  })

-- The card owns a descriptor while its highest bit is set.
unfoldable pub is_owned : Descriptor → Bool
is_owned d = not (bit_and d.flags 0x80000000 == 0)

-- A whole frame without an error.
unfoldable pub is_frame : Descriptor → Bool
is_frame d = bit_and d.flags 0x40000000 == 0 && bit_and d.flags 0x03000000 == 0x03000000

-- The size of a frame, less its checksum in all but the shortest.
unfoldable pub frame_size : Descriptor → ℕ
frame_size d = let size = bit_and d.flags 0xFFF in if ltb 64 size then size - 4 else size

-- What follows the call of the handler.
unfoldable pub answer_raw : {S : Type 0} → Descriptor → Card → Bool × List ℕ × S → Option (Card × S)
answer_raw d c (back, buffer, s) =
    let left = record c { memory = write_bytes d.address buffer c.memory } in
    if back then (send_raw buffer (frame_size d) left >>= λ c'. some (c', s)) else some (left, s)

-- The body of the loop of `receive`, up to the release of the descriptor.
unfoldable pub take_frame :
    {S : Type 0} → Option (RawHandler S) → Descriptor → Card → S → Option (Card × S)
take_frame none d c s = some (c, s)
take_frame (some h) d c s =
    if is_frame d
    then (h s (read_bytes (frame_size d) d.address c.memory) (frame_size d) >>= λ r.
        answer_raw d c r)
    else some (c, s)

unfoldable pub released : Descriptor → Descriptor
released d = record d { flags = 0x8000F7FF; flags2 = 0 }

unfoldable pub release : Descriptor → Card → Card
release d c = record c {
  recv_descriptors = set c.recv_descriptors c.current_recv (released d);
  current_recv = (c.current_recv + 1) % 8;
}

-- `receive`, on fuel.
unfoldable pub receive : {S : Type 0} → ℕ → Option (RawHandler S) → Card → S → Option (Card × S)
receive zero h c s = none
receive (suc fuel) h c s = do
  d ← get_elem? c.recv_descriptors c.current_recv
  let next = (take_frame h d c s >>= λ (c', s'). receive fuel h (release d c') s')
  if is_owned d then some (c, s) else next
