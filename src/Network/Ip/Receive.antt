-- ===== src/Network/Ip/Receive.antt =====
-- A packet that `Send` builds, at the host that it is for.
use sector_os.Base.{
  ℕ, ◌+◌, ◌-◌, ◌*◌, ◌≡◌, ◌≤◌, ◌<◌, refl, Bool, Option, some, ◌>>=◌, List, ◌∷◌, ◌++◌, length, take,
  get_or, ltb, if◌then◌else◌, u16, sub32, arith, ge→ltb, lt→ltb, eq→==, ◌∙◌,
}
use sector_os.Network.ByteOrder.{swap16, swap16_sum, le16, get16, get32}
use sector_os.Network.Checksum.{checksum}
use sector_os.Network.Checksum.Verify.{IsWords, checksum_verifies}
use sector_os.Network.Ip.{
  IpHandler, IpHandlers, header_bytes, packet_length, checksum_of, send_packet_back,
  call_ip_handler, on_packet_received, ip_front, ip_back, packet,
}

pub checksum_of-verifies :
    (xs ys : List ℕ)
    → IsWords xs
    → IsWords ys
    → length xs + length ys + 2 ≤ 65536
    → checksum (xs ++ (le16 (checksum_of (xs ++ 0 ∷ (0 ∷ ys))) ++ ys)) ≡ some 0
unfolding checksum_of
checksum_of-verifies xs ys hx hy small =
    let (c, e, v) = checksum_verifies xs ys hx hy small in rw (checksum_of, e) v

front-IsWords : (protocol n : ℕ) → IsWords (ip_front protocol n)
unfolding ip_front
front-IsWords protocol n = omega arith

back-IsWords : (own_ip dst_ip : ℕ) → IsWords (ip_back own_ip dst_ip)
unfolding ip_back
back-IsWords own_ip dst_ip = omega arith

lengths :
    (protocol n own_ip dst_ip : ℕ)
    → length (ip_front protocol n) + length (ip_back own_ip dst_ip) ≡ 18
unfolding ip_front ip_back
lengths protocol n own_ip dst_ip = refl

header_of_packet :
    (own_ip dst_ip protocol : ℕ) (bytes : List ℕ)
    → take 20 (packet own_ip dst_ip protocol bytes)
      ≡ ip_front protocol (length bytes)
        ++ (le16
              (checksum_of (ip_front protocol (length bytes) ++ (0 ∷ (0 ∷ ip_back own_ip dst_ip))))
            ++ ip_back own_ip dst_ip)
unfolding packet ip_front ip_back
header_of_packet own_ip dst_ip protocol bytes = refl

-- The header of every packet that `Send` builds sums to a checksum of zero.
packet_verifies :
    (own_ip dst_ip protocol : ℕ) (bytes : List ℕ)
    → checksum (take 20 (packet own_ip dst_ip protocol bytes)) ≡ some 0
packet_verifies own_ip dst_ip protocol bytes =
    let n = length bytes in
    rw (header_of_packet own_ip dst_ip protocol bytes) (
      checksum_of-verifies (ip_front protocol n) (ip_back own_ip dst_ip) (front-IsWords protocol n)
        (back-IsWords own_ip dst_ip) (omega (arith, lengths protocol n own_ip dst_ip)))

-- What a host does with a packet whose handler is called with a size of `n`.
abbrev pub handled :
    {S : Type 0} → IpHandler S → S → ℕ → ℕ → List ℕ → List ℕ → ℕ → Option (Bool × List ℕ × S)
handled h s src_ip dst_ip header payload n = do
  (send_back, q, t) ← h s src_ip dst_ip payload n
  some (send_back, send_packet_back send_back (header ++ q), t)

dispatched :
    {S : Type 0} (s : S) (handlers : IpHandlers S) (h : IpHandler S) (own_ip protocol size : ℕ)
    (p : List ℕ)
    → handlers protocol ≡ some h
    → protocol < 255
    → 20 ≤ size
    → get32 p 16 ≡ own_ip
    → get_or p 9 0 ≡ protocol
    → on_packet_received own_ip handlers s p size ≡ call_ip_handler p size s (some h)
unfolding on_packet_received
dispatched s handlers h own_ip protocol size p there known whole to_us kind =
    rw
      (
        ge→ltb size 20 whole,
        to_us,
        eq→== own_ip own_ip refl,
        kind,
        lt→ltb protocol 255 known,
        there,
      )
      refl

module _ {S : Type 0} (s : S) (handlers : IpHandlers S) (h : IpHandler S)
    (own_ip dst_ip protocol : ℕ) (bytes pad : List ℕ) (there : handlers protocol ≡ some h)
    (known : protocol < 255) (own_range : own_ip < 4294967296) (dst_range : dst_ip < 4294967296)
    (fits : length bytes + 20 < 65536) where
  to_handler :
      (size : ℕ)
      → 20 ≤ size
      → on_packet_received dst_ip handlers s (packet own_ip dst_ip protocol bytes ++ pad) size
        ≡ handled h s own_ip dst_ip
            (take 20 (packet own_ip dst_ip protocol bytes))
            (bytes ++ pad)
            (sub32 (packet_length (packet own_ip dst_ip protocol bytes ++ pad) size) 20)
  unfolding call_ip_handler header_bytes packet ip_front ip_back
  to_handler size whole =
      let p = packet own_ip dst_ip protocol bytes ++ pad in
      let to_us : get32 p 16 ≡ dst_ip = omega arith in
      let from : get32 p 12 ≡ own_ip = omega arith in
      let kind : get_or p 9 0 ≡ protocol = omega arith in
      let called : call_ip_handler p size s (some h)
          ≡ handled h s (get32 p 12) (get32 p 16) (take 20 p) (bytes ++ pad)
              (sub32 (packet_length p size) 20) =
        refl in
      dispatched s handlers h dst_ip protocol size p there known whole to_us kind
      ∙ called
      ∙ rw (from, to_us) refl

  length_seen :
      (size : ℕ)
      → packet_length (packet own_ip dst_ip protocol bytes ++ pad) size
        ≡ (if ltb size (swap16 (length bytes + 20)) then size else swap16 (length bytes + 20))
  unfolding packet_length packet ip_front
  length_seen size =
      let total : u16 (length bytes + 20) ≡ length bytes + 20 = omega arith in
      let field : get16 (packet own_ip dst_ip protocol bytes ++ pad) 2
          ≡ swap16 (length bytes + 20) =
        rw total (omega (arith, swap16_sum (length bytes + 20))) in
      rw field refl

  -- A packet of at most 255 bytes, in a frame that may hold more behind it, reaches the handler of its
  -- protocol with the sender's address and its own data, but also with what stands behind it: the size
  -- is the frame's, less the header. The protocol is not 255, and the frame has at most 5120 bytes.
  pub packet_delivered :
      (size : ℕ)
      → length bytes + 20 < 256
      → 20 ≤ size
      → size ≤ 5120
      → on_packet_received dst_ip handlers s (packet own_ip dst_ip protocol bytes ++ pad) size
        ≡ handled h s own_ip dst_ip
            (take 20 (packet own_ip dst_ip protocol bytes))
            (bytes ++ pad)
            (size - 20)
  packet_delivered size short whole frame =
      let swapped = swap16_sum (length bytes + 20) in
      let all : packet_length (packet own_ip dst_ip protocol bytes ++ pad) size ≡ size =
        ground (arith, length_seen size, swapped) in
      let n : sub32 size 20 ≡ size - 20 = omega arith in to_handler size whole ∙ rw (all, n) refl

  -- The handler of a packet whose length is `k` times 256, with `k` from 1 to 19, is called with a
  -- size near 4 GiB, whatever the size of the frame: the length is compared in the byte order of the
  -- wire, so that it is `k`, less than the header that is taken from it.
  pub packet_wraps :
      (size k : ℕ)
      → length bytes + 20 ≡ k * 256
      → k < 20
      → 20 ≤ size
      → on_packet_received dst_ip handlers s (packet own_ip dst_ip protocol bytes ++ pad) size
        ≡ handled h s own_ip dst_ip
            (take 20 (packet own_ip dst_ip protocol bytes))
            (bytes ++ pad)
            (4294967276 + k)
  packet_wraps size k total few whole =
      let swapped = swap16_sum (length bytes + 20) in
      let field : swap16 (length bytes + 20) ≡ k = omega (arith, swapped) in
      let seen : packet_length (packet own_ip dst_ip protocol bytes ++ pad) size ≡ k =
        ground (arith, length_seen size, field) in
      let n : sub32 k 20 ≡ 4294967276 + k = omega arith in to_handler size whole ∙ rw (seen, n) refl
