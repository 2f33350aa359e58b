-- ===== src/Network/Udp/Conversation.antt =====
-- A datagram of Network/udp.cpp from one host to another, in IP packets, and the answer to it.
use sector_os.Base.{
  Bool, ◌∙◌, ◌≤◌, take, ℕ, ◌+◌, ◌-◌, ◌≡◌, ◌<◌, refl, true, false, Option, some, List, [], ◌∷◌, ◌++◌,
  length, set, arith, ap,
}
use sector_os.Network.Ip.{
  IpHandlers, on_packet_received, packet, ip_front, ip_back, send_packet_back,
}
use sector_os.Network.Ip.Receive.{packet_delivered}
use sector_os.Network.Udp.{
  Delivered, udp_handler, UdpSocket, UdpProvider, is_open, is_connected, find_receiver, hand_over,
  send_datagram,
}
use sector_os.Network.Udp.Delivery.{
  datagram, datagram_received, NoneFor, find_open, find_connected, set_there, hand_over_to, taken,
}

-- A host of address `own_ip` that gets a packet with a datagram of the socket `s` of another host,
-- with what stands behind it in the frame.
abbrev pub arrives :
    ℕ
    → IpHandlers (UdpProvider × List Delivered)
    → UdpProvider × List Delivered
    → UdpSocket
    → List ℕ
    → List ℕ
    → Option (Bool × List ℕ × (UdpProvider × List Delivered))
arrives own_ip handlers state s bytes pad =
    on_packet_received own_ip handlers state
      (packet s.local_ip s.remote_ip 17 (send_datagram s bytes) ++ pad)
      (length bytes + 28 + length pad)

-- The packet is left as it is, and one more call is made.
abbrev pub takes_in :
    UdpProvider
    → List Delivered
    → UdpSocket
    → List ℕ
    → List ℕ
    → ℕ
    → UdpSocket
    → Option (Bool × List ℕ × (UdpProvider × List Delivered))
takes_in p calls s bytes pad h t = some (
  false,
  packet s.local_ip s.remote_ip 17 (send_datagram s bytes) ++ pad,
  (
    p,
    calls
        ++ record {
          handler = h;
          socket = t;
          bytes = bytes ++ pad;
          size = length bytes + length pad;
        }
          ∷ [],
  ),
)

datagram-length :
    (s : UdpSocket) (bytes : List ℕ)
    → length bytes + 8 < 65536
    → length (send_datagram s bytes) ≡ length bytes + 8
datagram-length s bytes fits = rw (datagram s bytes fits) (omega arith)

packet_kept :
    (own_ip dst_ip : ℕ) (bytes pad : List ℕ)
    → take 20 (packet own_ip dst_ip 17 bytes) ++ (bytes ++ pad)
      ≡ packet own_ip dst_ip 17 bytes ++ pad
unfolding packet ip_front ip_back
packet_kept own_ip dst_ip bytes pad = refl

arrived :
    (handlers : IpHandlers (UdpProvider × List Delivered)) (p : UdpProvider)
    (calls : List Delivered) (s t : UdpSocket) (bytes pad : List ℕ) (h i : ℕ)
    → handlers 17 ≡ some udp_handler
    → s.local_ip < 4294967296
    → s.remote_ip < 4294967296
    → s.local_port < 65536
    → s.remote_port < 65536
    → length bytes + 28 < 256
    → length bytes + 28 + length pad ≤ 5120
    → find_receiver s.local_port s.local_ip s.remote_port s.remote_ip p.sockets ≡ some (i, t)
    → t.handler ≡ some h
    → arrives s.remote_ip handlers (p, calls) s bytes pad
      ≡ takes_in (record p { sockets = set p.sockets i t }) calls s bytes pad h t
unfolding udp_handler send_packet_back
arrived handlers p calls s t bytes pad h i there lip rip lp rp short frame found e =
    let n = datagram-length s bytes (omega arith) in
    let size : length bytes + 28 + length pad - 20 ≡ length bytes + 8 + length pad = omega arith in
    let received =
      datagram_received s bytes pad s.local_ip s.remote_ip p (omega arith) lp rp
      ∙ ap (hand_over (send_datagram s bytes ++ pad) (length bytes + 8 + length pad) p) found
      ∙ hand_over_to s t bytes pad h i p (omega arith) e in
    packet_delivered (p, calls) handlers udp_handler s.local_ip s.remote_ip 17
      (send_datagram s bytes) pad there (omega arith) lip rip (omega arith)
      (length bytes + 28 + length pad) (omega arith) (omega arith) frame
    ∙ rw (size, received, packet_kept s.local_ip s.remote_ip (send_datagram s bytes) pad) refl

-- A client's socket, connected to the port of a listening one, sends a datagram of less than 228
-- bytes, in an IP packet; no socket of the server's host in front of the listening one takes it. The
-- server's handler is called with the data, and with what stands behind the packet in its frame, which
-- has at most 5120 bytes; the socket is the client's from then on. What the server sends on it, within
-- the same bounds, reaches the client's handler in the same way, where no socket in front of the
-- client's takes it, and the sockets of the client's host stay as they are. Nothing is sent back. UDP
-- is the handler of protocol 17 on both hosts.
pub conversation :
    (handlers handlers' : IpHandlers (UdpProvider × List Delivered)) (client server : UdpSocket)
    (front back front' back' : List UdpSocket) (free free' h h' : ℕ) (calls calls' : List Delivered)
    (bytes answer pad pad' : List ℕ)
    → handlers 17 ≡ some udp_handler
    → handlers' 17 ≡ some udp_handler
    → (client.remote_port ≡ server.local_port) × (client.remote_ip ≡ server.local_ip)
    → (client.local_port < 65536) × (client.local_ip < 4294967296)
    → (server.local_port < 65536) × (server.local_ip < 4294967296)
    → server.listening ≡ true
    → client.listening ≡ false
    → server.handler ≡ some h
    → client.handler ≡ some h'
    → NoneFor client.local_port client.local_ip client.remote_port client.remote_ip front
    → NoneFor server.local_port server.local_ip client.local_port client.local_ip front'
    → (length bytes + 28 < 256) × (length bytes + 28 + length pad ≤ 5120)
    → (length answer + 28 < 256) × (length answer + 28 + length pad' ≤ 5120)
    → (arrives client.remote_ip handlers
          (record { sockets = front ++ server ∷ back; free_port = free }, calls)
          client
          bytes
          pad
        ≡ takes_in
            (record { sockets = front ++ taken client server ∷ back; free_port = free })
            calls
            client
            bytes
            pad
            h
            (taken client server))
      × (arrives client.local_ip handlers'
            (record { sockets = front' ++ client ∷ back'; free_port = free' }, calls')
            (taken client server)
            answer
            pad'
          ≡ takes_in
              (record { sockets = front' ++ client ∷ back'; free_port = free' })
              calls'
              (taken client server)
              answer
              pad'
              h'
              client)
conversation handlers handlers' client server front back front' back' free free' h h' calls calls'
      bytes answer pad pad' there there' link lo so open_ used e e' none_for none_for' fits fits' =
    let (port, ip) = link in
    let p : UdpProvider = record { sockets = front ++ server ∷ back; free_port = free } in
    let p' : UdpProvider = record { sockets = front' ++ client ∷ back'; free_port = free' } in
    let t = taken client server in
    let takes : is_open client.remote_port client.remote_ip server ≡ true =
      unfold is_open in ground arith in
    let shut : is_open client.local_port client.local_ip client ≡ false =
      unfold is_open in ground arith in
    let linked : is_connected server.local_port server.local_ip client.local_port client.local_ip
          client
        ≡ true =
      unfold is_connected in ground arith in
    let found =
      find_open client.local_port client.local_ip client.remote_port client.remote_ip server back
        front none_for takes in
    let found' =
      find_connected server.local_port server.local_ip client.local_port client.local_ip client
        back' front' none_for' shut linked in
    let there_1 =
      arrived handlers p calls client t bytes pad h (length front) there lo.1 (omega arith) lo.0
        (omega arith) fits.0 fits.1 found e in
    let back_1 =
      arrived handlers' p' calls' t client answer pad' h' (length front') there' so.1 lo.1 so.0 lo.0
        fits'.0 fits'.1 found' e' in
    (
      rw (set_there front back server t) at there_1,
      rw (set_there front' back' client client) at back_1,
    )
