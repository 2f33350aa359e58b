-- ===== src/Network/Tcp/Receive.antt =====
-- `TransmissionControlProtocolProvider::OnInternetProtocolReceived`. The handler's method is virtual:
-- it is the parameter `handle`, which may use the socket to send and to disconnect. `none` is a call
-- through the null handler.
use sector_os.Base.{
  ℕ, zero, suc, ◌+◌, ◌-◌, ◌*◌, ◌/◌, Bool, true, false, ◌&&◌, ◌||◌, Option, none, some, ◌>>=◌, List,
  [], ◌∷◌, ◌++◌, get_or, set, ◌==◌, ltb, if◌then◌else◌, u16, u32, sub32, bit_and, drop,
}
use sector_os.Network.ByteOrder.{big_endian32}
use sector_os.Network.Tcp.Socket.{
  State, closed, listen, syn_sent, syn_received, established, fin_wait1, fin_wait2, close_wait,
  Socket, Provider, Header, Segment, fin, syn, rst, ack, state_number,
}
use sector_os.Network.Tcp.Send.{send}

-- The header's fields in a payload, lowest byte first.
unfoldable pub byte_at : List ℕ → ℕ → ℕ
byte_at payload i = get_or payload i 0

unfoldable pub header_of : List ℕ → Header
unfolding byte_at
header_of p = record {
  src_port = byte_at p 0 + 256 * byte_at p 1;
  dst_port = byte_at p 2 + 256 * byte_at p 3;
  sequence_number = byte_at p 4 + 256 * byte_at p 5 + 65536 * byte_at p 6 + 16777216 * byte_at p 7;
  acknowledgement_number =
      byte_at p 8 + 256 * byte_at p 9 + 65536 * byte_at p 10 + 16777216 * byte_at p 11;
  header_size32 = byte_at p 12 / 16;
  flags = byte_at p 13;
}

abbrev pub is_state : State → State → Bool
is_state a b = state_number a == state_number b

-- The labels of the `switch` over `flags & (SYN | ACK | FIN)`; `data_only` is none of them.
pub data Kind : Type 0 where
  syn_only syn_ack syn_fin fin_seen ack_only data_only : Kind

unfoldable pub kind_of : ℕ → Kind
kind_of flags =
    let k = bit_and flags 19 in
    if k == 2
    then syn_only
    else if k == 18
    then syn_ack
    else if k == 3
    then syn_fin
    else if k == 19
    then syn_fin
    else if k == 1
    then fin_seen
    else if k == 17
    then fin_seen
    else if k == 16
    then ack_only
    else data_only

-- The socket, what was sent, and the flag `reset` behind a case of the switch.
pub record Reaction : Type 0 where
  pub socket : Socket
  pub sent : List Segment
  pub reset : Bool

abbrev pub quiet : Socket → Reaction
quiet s = record { socket = s; sent = []; reset = false }

abbrev pub refused : Socket → Reaction
refused s = record { socket = s; sent = []; reset = true }

abbrev pub answer : Socket → ℕ → Reaction
answer s flags = record {
  socket = (send s [] flags).0;
  sent = (send s [] flags).1 ∷ [];
  reset = false;
}

unfoldable pub on_syn : Header → ℕ → State → Socket → Reaction
on_syn h src_ip listen s =
    let t = record s {
      state = syn_received;
      remote_port = h.src_port;
      remote_ip = src_ip;
      acknowledgement_number = u32 (big_endian32 h.sequence_number + 1);
      sequence_number = 0xbeefcafe;
    } in
    let r = answer t (syn + ack) in
    record r { socket = record r.socket { sequence_number = u32 (r.socket.sequence_number + 1) } }
on_syn h src_ip _ s = refused s

unfoldable pub on_syn_ack : Header → State → Socket → Reaction
on_syn_ack h syn_sent s =
    answer
      (record s {
        state = established;
        acknowledgement_number = u32 (big_endian32 h.sequence_number + 1);
        sequence_number = u32 (s.sequence_number + 1);
      })
      ack
on_syn_ack h _ s = refused s

acknowledge_fin : Socket → Socket
acknowledge_fin s = record s { acknowledgement_number = u32 (s.acknowledgement_number + 1) }

unfoldable pub on_fin : State → Socket → Reaction
unfolding acknowledge_fin
on_fin established s =
    let r = answer (acknowledge_fin (record s { state = close_wait })) ack in
    let r' = answer r.socket (fin + ack) in record r' { sent = r.sent ++ r'.sent }
on_fin close_wait s = quiet (record s { state = closed })
on_fin fin_wait1 s = answer (acknowledge_fin (record s { state = closed })) ack
on_fin fin_wait2 s = answer (acknowledge_fin (record s { state = closed })) ack
on_fin _ s = refused s

-- `for (int i = ...; i < size; i++) if (internetprotocolPayload[i] != 0) x = i;`
unfoldable pub last_nonzero : List ℕ → ℕ → ℕ → ℕ → ℕ
last_nonzero payload zero i x = x
last_nonzero payload (suc rounds) i x =
    last_nonzero payload rounds (i + 1) (if byte_at payload i == 0 then x else i)

-- What a handler's method returns, with what it did to the socket and what it sent.
pub record Handled : Type 0 where
  pub accepted : Bool
  pub socket : Socket
  pub sent : List Segment

abbrev pub Handle : Type 0
Handle = ℕ → Socket → List ℕ → ℕ → Handled

unfoldable pub accept : List ℕ → ℕ → ℕ → Handled → Reaction
accept payload size offset done =
    if done.accepted
    then (let x = last_nonzero payload (size - offset) offset 0 in
        let t = done.socket in
        let r =
          answer
            (record t {
              acknowledgement_number = u32 (t.acknowledgement_number + x + 4294967297 - offset);
            })
            ack in
        record r { sent = done.sent ++ r.sent })
    else record { socket = done.socket; sent = done.sent; reset = true }

-- The call through the handler's pointer, and what follows it.
unfoldable pub call_handler : Handle → ℕ → List ℕ → ℕ → Option ℕ → Socket → Option Reaction
call_handler handle offset payload size none s = none
call_handler handle offset payload size (some o) s =
    some (accept payload size offset (handle o s (drop offset payload) (u16 (sub32 size offset))))

-- The default case: data in order goes to the handler.
unfoldable pub deliver : Handle → Header → List ℕ → ℕ → Socket → Option Reaction
deliver handle h payload size s =
    if big_endian32 h.sequence_number == s.acknowledgement_number
    then call_handler handle (h.header_size32 * 4) payload size s.handler s
    else some (refused s)

-- The case ACK falls through to the default unless it changes the state or is all the flags.
unfoldable pub on_ack : Handle → Header → List ℕ → ℕ → State → Socket → Option Reaction
on_ack handle h payload size syn_received s = some (quiet (record s { state = established }))
on_ack handle h payload size fin_wait1 s = some (quiet (record s { state = fin_wait2 }))
on_ack handle h payload size close_wait s = some (quiet (record s { state = closed }))
on_ack handle h payload size _ s =
    if h.flags == ack then some (quiet s) else deliver handle h payload size s

unfoldable pub dispatch : Handle → Header → ℕ → List ℕ → ℕ → Kind → Socket → Option Reaction
dispatch handle h src_ip payload size syn_only s = some (on_syn h src_ip s.state s)
dispatch handle h src_ip payload size syn_ack s = some (on_syn_ack h s.state s)
dispatch handle h src_ip payload size syn_fin s = some (refused s)
dispatch handle h src_ip payload size fin_seen s = some (on_fin s.state s)
dispatch handle h src_ip payload size ack_only s = on_ack handle h payload size s.state s
dispatch handle h src_ip payload size data_only s = deliver handle h payload size s

-- `RST` closes the socket first, and a closed socket is not looked at.
unfoldable pub react : Handle → Header → ℕ → List ℕ → ℕ → Socket → Option Reaction
react handle h src_ip payload size s =
    let t = if bit_and h.flags rst == 0 then s else record s { state = closed } in
    if is_state t.state closed
    then some (quiet t)
    else dispatch handle h src_ip payload size (kind_of h.flags) t

-- `if (reset) Send(socket, 0, 0, RST);`
unfoldable pub finish : Reaction → Socket × List Segment
finish r =
    if r.reset
    then ((send r.socket [] rst).0, r.sent ++ (send r.socket [] rst).1 ∷ [])
    else (r.socket, r.sent)

-- The two tests of the loop over the sockets.
unfoldable pub is_for : Header → ℕ → ℕ → Socket → Bool
is_for h src_ip dst_ip s =
    (s.local_port == h.dst_port
      && s.local_ip == dst_ip
      && is_state s.state listen
      && bit_and h.flags (syn + ack) == syn)
    || (s.local_port == h.dst_port
        && s.local_ip == dst_ip
        && s.remote_port == h.src_port
        && s.remote_ip == src_ip)

unfoldable pub find_socket : (Socket → Bool) → List Socket → Option (ℕ × Socket)
find_socket test [] = none
find_socket test (s ∷ rest) =
    if test s then some (0, s) else (find_socket test rest >>= λ (i, t). some (suc i, t))

-- The part of the method behind the loop. Without a socket `reset` stays false, so that nothing is
-- sent; the loop that would remove a closed socket runs only while `socket == 0`, so that it removes
-- none.
unfoldable pub on_found :
    Handle → ℕ → List ℕ → ℕ → Provider → Option (ℕ × Socket) → Option (Provider × List Segment)
on_found handle src_ip payload size p none = some (p, [])
on_found handle src_ip payload size p (some (i, s)) =
    react handle (header_of payload) src_ip payload size s >>= λ r.
    some (record p { sockets = set p.sockets i (finish r).0 }, (finish r).1)

unfoldable pub on_received :
    Handle → ℕ → ℕ → List ℕ → ℕ → Provider → Option (Provider × List Segment)
on_received handle src_ip dst_ip payload size p =
    if ltb size 20
    then some (p, [])
    else on_found handle src_ip payload size p
        (find_socket (is_for (header_of payload) src_ip dst_ip) p.sockets)
