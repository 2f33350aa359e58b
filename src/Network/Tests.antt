-- ===== src/Network/Tests.antt =====
-- The network stack at concrete inputs.
use sector_os.Base.{
  ◌⊎◌, ◌<◌, ◌≤◌, ℕ, ◌≡◌, refl, inl, true, false, none, some, List, [], ◌∷◌, ◌++◌, arith, Always,
  length, get_elem?, ◌+◌,
}
use sector_os.Network.ByteOrder.{swap16, le16}
use sector_os.Network.Checksum.{checksum}
use sector_os.Network.Checksum.Verify.{checksum_verifies}
use sector_os.Network.Tcp.Socket.{
  listen, established, closed, fin_wait1, fin, Socket, Provider, Header, syn, ack,
}
use sector_os.Network.Tcp.Send.{segment}
use sector_os.Network.Tcp.Receive.{
  Reaction, Handle, quiet, react, on_received, is_for, find_socket, header_of,
}
use sector_os.Network.Tcp.Transitions.{MayDisconnect}
use sector_os.Network.Tcp.Diagram.Sockets.{OneMoves, on_received-OneMoves}
use sector_os.Network.Tcp.Handshake.{half_opened, handshake}
use sector_os.Network.Tcp.Provider.{connect, disconnect}
use sector_os.Network.Tcp.Connections.{opened, answered_syn, connect_handshake, disconnect_closes}
use sector_os.Network.Tcp.Wire.{receiver_header, segment_verifies}

ether_type : swap16 0x0806 ≡ 0x0608
unfolding swap16
ether_type = refl

-- The header of an IP packet around its checksum field.
abbrev front_bytes : List ℕ
front_bytes = 0x45 ∷ 0x00 ∷ 0x00 ∷ 0x1c ∷ 0x00 ∷ 0x01 ∷ 0x40 ∷ 0x00 ∷ 0x40 ∷ 0x01 ∷ []

abbrev back_bytes : List ℕ
back_bytes = 0x0a ∷ 0x00 ∷ 0x02 ∷ 0x0f ∷ 0x0a ∷ 0x00 ∷ 0x02 ∷ 0x02 ∷ []

checksum_verifies_example :
    (c : ℕ) × (checksum (front_bytes ++ 0 ∷ (0 ∷ back_bytes)) ≡ some c)
    × (checksum (front_bytes ++ (le16 c ++ back_bytes)) ≡ some 0)
checksum_verifies_example =
    checksum_verifies front_bytes back_bytes (omega arith) (omega arith) (omega arith)

abbrev socket : Socket
socket = record {
  remote_port = 0;
  remote_ip = 0;
  local_port = 0x5000;
  local_ip = 0x0f02000a;
  sequence_number = 0;
  acknowledgement_number = 5;
  handler = none;
  state = listen;
}

abbrev header : ℕ → Header
header flags = record {
  src_port = 0x1234;
  dst_port = 0x5000;
  sequence_number = 0x05000000;
  acknowledgement_number = 0;
  header_size32 = 5;
  flags = flags;
}

-- A handler that takes everything and does nothing.
abbrev idle : Handle
idle o s bytes size = record { accepted = true; socket = s; sent = [] }

idle-MayDisconnect : MayDisconnect idle
idle-MayDisconnect o s bytes size = inl refl

abbrev provider : Provider
provider = record { sockets = socket ∷ []; free_port = 1024 }

abbrev syn_bytes : List ℕ
syn_bytes =
    0x34 ∷ 0x12 ∷ 0x00 ∷ 0x50 ∷ 0 ∷ 0 ∷ 0 ∷ 5 ∷ 0 ∷ 0 ∷ 0 ∷ 0 ∷ 0x50 ∷ 0x02 ∷ 0xff ∷ 0xff ∷ 0 ∷ 0
    ∷ 0 ∷ 0 ∷ []

on_received-OneMoves_example :
    Always
      (λ q.
        ((20 < 20) × (q.0.sockets ≡ provider.sockets))
        ⊎ ((20 ≤ 20)
            × OneMoves 2
                (find_socket (is_for (header_of syn_bytes) 9 0x0f02000a) provider.sockets)
                provider.sockets
                q.0.sockets))
      (on_received idle 9 0x0f02000a syn_bytes 20 provider)
on_received-OneMoves_example =
    on_received-OneMoves idle idle-MayDisconnect 9 syn_bytes 20 0x0f02000a provider (omega arith)

handshake_example :
    (r : Reaction) × (react idle (header syn) 9 [] 20 socket ≡ some r)
    × (r.sent ≡ segment (half_opened (header syn) 9 socket) [] 18 ∷ [])
    × (r.socket ≡ record (half_opened (header syn) 9 socket) { sequence_number = 0xbeefcaff })
    × (r.reset ≡ false)
    × (react idle (header ack) 9 [] 20 r.socket
        ≡ some (quiet (record r.socket { state = established })))
handshake_example = handshake idle (header syn) (header ack) 9 20 20 [] [] socket refl refl refl

abbrev open_socket : ℕ → Socket
open_socket n = record socket { state = established; acknowledgement_number = n }

segment_verifies_example :
    (length (segment socket (1 ∷ 2 ∷ 3 ∷ 4 ∷ []) 24).bytes ≡ 28)
    × (checksum (receiver_header socket 28 ++ (segment socket (1 ∷ 2 ∷ 3 ∷ 4 ∷ []) 24).bytes)
        ≡ some 0)
segment_verifies_example =
    segment_verifies socket (1 ∷ 2 ∷ 3 ∷ 4 ∷ []) 24 (omega arith) (omega arith)

connect_handshake_example :
    (q : Provider) × (s : Socket) × (connect true socket 0x0f02000a 0x0202000a 80 provider
      ≡ (q, some 1, segment (opened socket 0x0f02000a 0x0202000a 80 provider) [] syn ∷ []))
    × (get_elem? q.sockets 1 ≡ some s)
    × (q.free_port ≡ 1025)
    × (react idle (header 18) 0x0202000a [] 20 s
        ≡ some (record {
          socket = answered_syn (header 18) s;
          sent = segment (answered_syn (header 18) s) [] ack ∷ [];
          reset = false;
        }))
connect_handshake_example =
    connect_handshake idle socket 0x0f02000a 0x0202000a 80 20 provider (header 18) [] refl

disconnect_closes_example :
    (r t u : Reaction) × ((disconnect (open_socket 6)).1
      ≡ segment (record (open_socket 6) { state = fin_wait1 }) [] (fin + ack))
    × (react idle (header 16) 9 [] 20 (disconnect (open_socket 6)).0 ≡ some r)
    × (r.sent ≡ [])
    × (react idle (header 17) 9 [] 20 r.socket ≡ some t)
    × (t.socket.state ≡ closed)
    × (length t.sent ≡ 1)
    × (react idle (header 17) 9 [] 20 (disconnect (open_socket 6)).0 ≡ some u)
    × (u.socket ≡ t.socket)
    × (u.sent ≡ t.sent)
disconnect_closes_example =
    disconnect_closes idle (open_socket 6) (header 16) (header 17) 9 20 [] refl refl
