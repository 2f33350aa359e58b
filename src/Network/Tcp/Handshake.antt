-- ===== src/Network/Tcp/Handshake.antt =====
-- What a peer sees: the three-way handshake, the answer to a gap, and what goes wrong.
use sector_os.Base.{
  ℕ, ◌+◌, ◌≡◌, refl, ◌≢◌, false, none, some, List, [], ◌∷◌, length, arith, u32, Always-some, ◌⊎◌,
}
use sector_os.Network.ByteOrder.{big_endian32}
use sector_os.Network.Tcp.Socket.{
  listen, syn_received, established, Socket, Provider, Header, Segment, syn, psh, ack,
}
use sector_os.Network.Tcp.Send.{send, segment}
use sector_os.Network.Tcp.Receive.{
  kind_of, Reaction, Handle, quiet, refused, on_syn, on_ack, deliver, call_handler, dispatch, react,
  on_received,
}
use sector_os.Network.Tcp.Transitions.{on_received-AllMove, AllMove-length, MayDisconnect}

-- The socket that a SYN makes of a listening one, before its answer goes out.
abbrev pub half_opened : Header → ℕ → Socket → Socket
half_opened h ip s = record s {
  state = syn_received;
  remote_port = h.src_port;
  remote_ip = ip;
  acknowledgement_number = u32 (big_endian32 h.sequence_number + 1);
  sequence_number = 0xbeefcafe;
}

-- A listening socket answers a segment that is just a SYN by one segment with SYN and ACK that
-- acknowledges the peer's number plus one, and is established by the ACK that follows, with
-- nothing more sent; no handler is called.
pub handshake :
    (handle : Handle) (h k : Header) (ip n m : ℕ) (p q : List ℕ) (s : Socket)
    → s.state ≡ listen
    → h.flags ≡ syn
    → k.flags ≡ ack
    → (r : Reaction) × (react handle h ip p n s ≡ some r)
      × (r.sent ≡ segment (half_opened h ip s) [] 18 ∷ [])
      × (r.socket ≡ record (half_opened h ip s) { sequence_number = 0xbeefcaff })
      × (r.reset ≡ false)
      × (react handle k ip q m r.socket ≡ some (quiet (record r.socket { state = established })))
unfolding react dispatch kind_of on_syn send on_ack
handshake handle h k ip n m p q s e f g = (
  record {
    socket = record (half_opened h ip s) { sequence_number = 0xbeefcaff };
    sent = segment (half_opened h ip s) [] 18 ∷ [];
    reset = false;
  },
  ground arith,
  refl,
  refl,
  refl,
  ground arith,
)

-- For an established socket, a segment with the flag PSH, with ACK or without it, is refused
-- where its sequence number is not the expected one: the socket stays as it is, and no handler is
-- called.
react_gap :
    (handle : Handle) (h : Header) (ip n : ℕ) (p : List ℕ) (s : Socket)
    → s.state ≡ established
    → (h.flags ≡ psh + ack) ⊎ (h.flags ≡ psh)
    → big_endian32 h.sequence_number ≢ s.acknowledgement_number
    → react handle h ip p n s ≡ some (refused s)
unfolding react dispatch kind_of on_ack deliver
react_gap handle h ip n p s e f g = ground arith

-- For an established socket without a handler, a segment with the flag PSH, with ACK or without
-- it, and with the expected sequence number is a call through a null pointer.
react_null_handler :
    (handle : Handle) (h : Header) (ip n : ℕ) (p : List ℕ) (s : Socket)
    → s.state ≡ established
    → s.handler ≡ none
    → (h.flags ≡ psh + ack) ⊎ (h.flags ≡ psh)
    → big_endian32 h.sequence_number ≡ s.acknowledgement_number
    → react handle h ip p n s ≡ none
unfolding react dispatch kind_of on_ack deliver call_handler
react_null_handler handle h ip n p s e o f g = ground arith

-- A segment that is received without a call through a null handler leaves as many sockets in the
-- table as there were, closed ones included, provided that a handler does no more to a socket
-- than disconnect it.
on_received_keeps_count :
    (handle : Handle) (src_ip dst_ip n : ℕ) (payload : List ℕ) (p q : Provider) (out : List Segment)
    → MayDisconnect handle
    → on_received handle src_ip dst_ip payload n p ≡ some (q, out)
    → length q.sockets ≡ length p.sockets
on_received_keeps_count handle src_ip dst_ip n payload p q out may e =
    AllMove-length p.sockets q.sockets
      (Always-some _ _ e (on_received-AllMove handle src_ip dst_ip payload n p may))
