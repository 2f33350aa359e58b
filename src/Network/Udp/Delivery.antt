-- ===== src/Network/Udp/Delivery.antt =====
-- A datagram from one host to another, and the answer to it.
use sector_os.Base.{
  ℕ, ◌+◌, ◌-◌, ◌≡◌, ◌<◌, refl, true, false, Option, some, List, [], ◌∷◌, ◌++◌, length, set, drop,
  u16, arith, take_all, ge→ltb, ap,
}
use sector_os.Network.ByteOrder.{swap16, le16, get16}
use sector_os.Network.Udp.{
  UdpSocket, UdpProvider, is_open, is_connected, find_receiver, call_udp_handler, hand_over,
  on_udp_received, send_datagram,
}

pub datagram :
    (s : UdpSocket) (bytes : List ℕ)
    → length bytes + 8 < 65536
    → send_datagram s bytes
      ≡ le16 s.local_port
        ++ (le16 s.remote_port ++ (le16 (swap16 (length bytes + 8)) ++ (le16 0 ++ bytes)))
unfolding send_datagram
datagram s bytes fits =
    let total : u16 (length bytes + 8) ≡ length bytes + 8 = omega arith in
    rw total (
      take_all (length bytes + 8)
        (le16 s.local_port
          ++ (le16 s.remote_port ++ (le16 (swap16 (length bytes + 8)) ++ (le16 0 ++ bytes))))
        (omega arith))

-- What a host hands over of a datagram that a socket `s` of another host sends, with what stands
-- behind it: the search goes by the socket's own addresses.
pub datagram_received :
    (s : UdpSocket) (bytes pad : List ℕ) (src_ip dst_ip : ℕ) (p : UdpProvider)
    → length bytes + 8 < 65536
    → s.local_port < 65536
    → s.remote_port < 65536
    → on_udp_received src_ip dst_ip (send_datagram s bytes ++ pad) (length bytes + 8 + length pad) p
      ≡ hand_over
          (send_datagram s bytes ++ pad)
          (length bytes + 8 + length pad)
          p
          (find_receiver s.local_port src_ip s.remote_port dst_ip p.sockets)
unfolding on_udp_received
datagram_received s bytes pad src_ip dst_ip p fits lp rp =
    let m = send_datagram s bytes ++ pad in
    let from : get16 m 0 ≡ s.local_port = rw (datagram s bytes fits) (omega arith) in
    let to : get16 m 2 ≡ s.remote_port = rw (datagram s bytes fits) (omega arith) in
    rw (ge→ltb (length bytes + 8 + length pad) 8 (omega arith), from, to) refl

-- No socket of the list takes the datagram.
abbrev pub NoneFor : ℕ → ℕ → ℕ → ℕ → List UdpSocket → Type 0
NoneFor src_port src_ip dst_port dst_ip [] = Unit {0}
NoneFor src_port src_ip dst_port dst_ip (s ∷ ss) =
    (is_open dst_port dst_ip s ≡ false)
    × (is_connected src_port src_ip dst_port dst_ip s ≡ false)
    × NoneFor src_port src_ip dst_port dst_ip ss

module _ (src_port src_ip dst_port dst_ip : ℕ) (s : UdpSocket) (rest : List UdpSocket) where
  pub find_open :
      (ss : List UdpSocket)
      → NoneFor src_port src_ip dst_port dst_ip ss
      → is_open dst_port dst_ip s ≡ true
      → find_receiver src_port src_ip dst_port dst_ip (ss ++ s ∷ rest)
        ≡ some
            (length ss, record s { listening = false; remote_port = src_port; remote_ip = src_ip })
  unfolding find_receiver
  find_open [] h e = rw e refl
  find_open (x ∷ ss) h e = rw (h.0, h.1, find_open ss h.2 e) refl

  pub find_connected :
      (ss : List UdpSocket)
      → NoneFor src_port src_ip dst_port dst_ip ss
      → is_open dst_port dst_ip s ≡ false
      → is_connected src_port src_ip dst_port dst_ip s ≡ true
      → find_receiver src_port src_ip dst_port dst_ip (ss ++ s ∷ rest) ≡ some (length ss, s)
  unfolding find_receiver
  find_connected [] h e f = rw (e, f) refl
  find_connected (x ∷ ss) h e f = rw (h.0, h.1, find_connected ss h.2 e f) refl

pub set_there :
    (ss rest : List UdpSocket) (s t : UdpSocket)
    → set (ss ++ s ∷ rest) (length ss) t ≡ ss ++ t ∷ rest
set_there [] rest s t = refl
set_there (x ∷ ss) rest s t = ap (λ (l : List UdpSocket). x ∷ l) (set_there ss rest s t)

drop_header :
    (s : UdpSocket) (bytes pad : List ℕ)
    → length bytes + 8 < 65536
    → drop 8 (send_datagram s bytes ++ pad) ≡ bytes ++ pad
drop_header s bytes pad fits = rw (datagram s bytes fits) refl

call_of :
    (s : UdpSocket) (bytes : List ℕ) (size h : ℕ) (o : Option ℕ)
    → o ≡ some h
    → call_udp_handler s bytes size o
      ≡ some (record { handler = h; socket = s; bytes = bytes; size = size })
unfolding call_udp_handler
call_of s bytes size h o e = rw e refl

pub hand_over_to :
    (s t : UdpSocket) (bytes pad : List ℕ) (h i : ℕ) (p : UdpProvider)
    → length bytes + 8 + length pad < 65536
    → t.handler ≡ some h
    → hand_over (send_datagram s bytes ++ pad) (length bytes + 8 + length pad) p (some (i, t)) ≡ (
      record p { sockets = set p.sockets i t },
      some (record {
        handler = h;
        socket = t;
        bytes = bytes ++ pad;
        size = length bytes + length pad;
      }),
    )
unfolding hand_over
hand_over_to s t bytes pad h i p fits e =
    let n : u16 (length bytes + 8 + length pad - 8) ≡ length bytes + length pad = omega arith in
    rw
      (
        drop_header s bytes pad (omega arith),
        n,
        call_of t (bytes ++ pad) (length bytes + length pad) h t.handler e,
      )
      refl

-- The socket of a server behind the first datagram of a client.
abbrev pub taken : UdpSocket → UdpSocket → UdpSocket
taken client server = record server {
  listening = false;
  remote_port = client.local_port;
  remote_ip = client.local_ip;
}
