-- ===== src/Network/Udp.antt =====
-- Network/udp.cpp. `HandleUserDatagramProtocolMessage` of a handler is virtual and returns nothing: a
-- call of it is a result, the socket and the data. The sockets and `numSockets` are one list.
pub mod Delivery
pub mod Conversation
use sector_os.Base.{
  ℕ, suc, ◌+◌, ◌-◌, Bool, true, false, ◌&&◌, Option, none, some, ◌>>=◌, List, [], ◌∷◌, ◌++◌, length,
  set, take, drop, ltb, ◌==◌, if◌then◌else◌, u16, u32,
}
use sector_os.Network.Ip.{IpHandler}
use sector_os.Network.ByteOrder.{swap16, le16, get16}

pub record UdpSocket : Type 0 where
  pub remote_port : ℕ  -- uint16_t, as the byte order of the wire leaves it
  pub remote_ip : ℕ  -- uint32_t
  pub local_port : ℕ  -- uint16_t
  pub local_ip : ℕ  -- uint32_t
  pub handler : Option ℕ
  pub listening : Bool

pub record UdpProvider : Type 0 where
  pub sockets : List UdpSocket
  pub free_port : ℕ

abbrev pub udp_header_size : ℕ
udp_header_size = 8

-- A call of a handler: its number, the socket, the data and its size.
pub record Delivered : Type 0 where
  pub handler : ℕ
  pub socket : UdpSocket
  pub bytes : List ℕ
  pub size : ℕ

-- The two tests of the loop over the sockets, for a datagram from one port and address to another.
unfoldable pub is_open : ℕ → ℕ → UdpSocket → Bool
is_open dst_port dst_ip s = s.local_port == dst_port && s.local_ip == dst_ip && s.listening

unfoldable pub is_connected : ℕ → ℕ → ℕ → ℕ → UdpSocket → Bool
is_connected src_port src_ip dst_port dst_ip s =
    s.local_port == dst_port
    && s.local_ip == dst_ip
    && s.remote_port == src_port
    && s.remote_ip == src_ip

-- The first socket that the datagram is for, with its index. A listening one belongs to the sender
-- from then on.
unfoldable pub find_receiver : ℕ → ℕ → ℕ → ℕ → List UdpSocket → Option (ℕ × UdpSocket)
find_receiver src_port src_ip dst_port dst_ip [] = none
find_receiver src_port src_ip dst_port dst_ip (s ∷ rest) =
    if is_open dst_port dst_ip s
    then some (0, record s { listening = false; remote_port = src_port; remote_ip = src_ip })
    else if is_connected src_port src_ip dst_port dst_ip s
    then some (0, s)
    else (find_receiver src_port src_ip dst_port dst_ip rest >>= λ (i, t). some (suc i, t))

-- The socket's own method: without a handler nothing is called.
unfoldable pub call_udp_handler : UdpSocket → List ℕ → ℕ → Option ℕ → Option Delivered
call_udp_handler s bytes size none = none
call_udp_handler s bytes size (some h) =
    some (record { handler = h; socket = s; bytes = bytes; size = size })

unfoldable pub hand_over :
    List ℕ → ℕ → UdpProvider → Option (ℕ × UdpSocket) → UdpProvider × Option Delivered
hand_over payload size p none = (p, none)
hand_over payload size p (some (i, s)) = (
  record p { sockets = set p.sockets i s },
  call_udp_handler s (drop udp_header_size payload) (u16 (size - udp_header_size)) s.handler,
)

-- `OnInternetProtocolReceived`
unfoldable pub on_udp_received : ℕ → ℕ → List ℕ → ℕ → UdpProvider → UdpProvider × Option Delivered
on_udp_received src_ip dst_ip payload size p =
    if ltb size udp_header_size
    then (p, none)
    else hand_over payload size p
        (find_receiver (get16 payload 0) src_ip (get16 payload 2) dst_ip p.sockets)

-- The same as the handler of protocol 17 in the layer below: nothing is sent back. The state is the
-- provider and the calls of handlers so far.
unfoldable pub udp_handler : IpHandler (UdpProvider × List Delivered)
unfolding on_udp_received
udp_handler (p, calls) src_ip dst_ip payload size =
    let (p', call) = on_udp_received src_ip dst_ip payload size p in
    some (false, payload, (p', elim call [ none ↦ calls | some c ↦ calls ++ c ∷ [] ]))

-- `Send`: the bytes for the layer below, whose length is a `uint16_t`.
unfoldable pub send_datagram : UdpSocket → List ℕ → List ℕ
send_datagram s bytes =
    let total = u16 (length bytes + udp_header_size) in
    take total
      (le16 s.local_port ++ (le16 s.remote_port ++ (le16 (swap16 total) ++ (le16 0 ++ bytes))))

-- The constructor; `fresh` stands for what the allocated memory holds in the fields that it leaves.
unfoldable pub new_udp_socket : UdpSocket → UdpSocket
new_udp_socket fresh = record fresh { handler = none; listening = false }

-- `Connect` and `Listen`: the provider and the index of the new socket. `room` says whether the
-- allocation succeeded.
unfoldable pub udp_connect : Bool → UdpSocket → ℕ → ℕ → ℕ → UdpProvider → UdpProvider × Option ℕ
unfolding new_udp_socket
udp_connect room fresh own_ip ip port p =
    if room
    then (
      record {
        sockets =
            p.sockets
            ++ record (new_udp_socket fresh) {
              remote_port = swap16 port;
              remote_ip = ip;
              local_port = swap16 p.free_port;
              local_ip = own_ip;
            }
              ∷ [];
        free_port = u16 (p.free_port + 1);
      },
      some (length p.sockets),
    )
    else (p, none)

unfoldable pub udp_listen : Bool → UdpSocket → ℕ → ℕ → UdpProvider → UdpProvider × Option ℕ
unfolding new_udp_socket
udp_listen room fresh own_ip port p =
    if room
    then (
      record p {
        sockets =
            p.sockets
            ++ record (new_udp_socket fresh) {
              listening = true;
              local_port = swap16 port;
              local_ip = own_ip;
            }
              ∷ [];
      },
      some (length p.sockets),
    )
    else (p, none)

-- The loop of `Disconnect` runs only while the socket is null, so that it removes none.
unfoldable pub udp_disconnect : ℕ → UdpProvider → UdpProvider
udp_disconnect i p = p

unfoldable pub udp_bind : ℕ → UdpSocket → UdpSocket
udp_bind handler s = record s { handler = some handler }
