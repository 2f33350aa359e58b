-- ===== src/Network/Tcp/Transitions.antt =====
-- The states that a socket moves through while segments come in.
use sector_os.Base.{
  ℕ, suc, ◌≡◌, refl, ◌⊎◌, inl, inr, Bool, Option, none, some, List, [], ◌∷◌, length, set, arith,
  Always, Always-bind, Bool-cases, ◌==◌, bit_and, ltb, ap,
}
use sector_os.Network.Tcp.Socket.{
  State, closed, listen, syn_sent, syn_received, established, fin_wait1, fin_wait2, close_wait,
  Socket, Provider, Header, Segment, rst, ack,
}
use sector_os.Network.ByteOrder.{big_endian32}
use sector_os.Network.Tcp.Send.{send}
use sector_os.Network.Tcp.Receive.{
  Kind, syn_only, syn_ack, syn_fin, fin_seen, ack_only, data_only, kind_of, Reaction, Handled,
  Handle, on_syn, on_syn_ack, on_fin, on_ack, accept, deliver, dispatch, react, finish, is_for,
  find_socket, on_received, call_handler, is_state, on_found, header_of,
}

infix 40 ◌⟶◌
pub data ◌⟶◌ : State → State → Type 0 where
  stay : {s : State} → s ⟶ s
  close : {s : State} → s ⟶ closed
  disconnect : {s : State} → s ⟶ fin_wait1
  half_open : listen ⟶ syn_received
  connected : syn_sent ⟶ established
  accepted : syn_received ⟶ established
  peer_closes : established ⟶ close_wait
  peer_answers : fin_wait1 ⟶ fin_wait2

-- The one state change that a handler can make is the socket's `Disconnect`.
abbrev pub MayDisconnect : Handle → Type 0
MayDisconnect handle =
    (o : ℕ) (s : Socket) (bytes : List ℕ) (size : ℕ)
    → ((handle o s bytes size).socket.state ≡ s.state)
      ⊎ ((handle o s bytes size).socket.state ≡ fin_wait1)

send-state : (s : Socket) (bytes : List ℕ) (flags : ℕ) → (send s bytes flags).0.state ≡ s.state
unfolding send
send-state s bytes flags = refl

on_syn-⟶ :
    (h : Header) (ip : ℕ) (st : State) (s : Socket)
    → s.state ≡ st
    → s.state ⟶ (on_syn h ip st s).socket.state
unfolding on_syn send
on_syn-⟶ h ip listen s e = rw e half_open
on_syn-⟶ h ip _ s e = stay

on_syn_ack-⟶ :
    (h : Header) (st : State) (s : Socket)
    → s.state ≡ st
    → s.state ⟶ (on_syn_ack h st s).socket.state
unfolding on_syn_ack send
on_syn_ack-⟶ h syn_sent s e = rw e connected
on_syn_ack-⟶ h _ s e = stay

on_fin-⟶ : (st : State) (s : Socket) → s.state ≡ st → s.state ⟶ (on_fin st s).socket.state
unfolding on_fin send
on_fin-⟶ established s e = rw e peer_closes
on_fin-⟶ close_wait s e = close
on_fin-⟶ fin_wait1 s e = close
on_fin-⟶ fin_wait2 s e = close
on_fin-⟶ _ s e = stay

abbrev Moves : State → Reaction → Type 0
Moves st r = st ⟶ r.socket.state

module _ (handle : Handle) (may : MayDisconnect handle) where
  handled-⟶ :
      (o : ℕ) (s : Socket) (bytes : List ℕ) (size : ℕ)
      → s.state ⟶ (handle o s bytes size).socket.state
  handled-⟶ o s bytes size = elim (may o s bytes size) [
    | inl e ↦ rw e stay
    | inr e ↦ rw e disconnect
  ]

  pub accept-state :
      (payload : List ℕ) (size offset : ℕ) (d : Handled)
      → (accept payload size offset d).socket.state ≡ d.socket.state
  unfolding accept send
  accept-state payload size offset d = ground arith

  call_handler-⟶ :
      (offset : ℕ) (payload : List ℕ) (size : ℕ) (o : Option ℕ) (s : Socket)
      → Always (Moves s.state) (call_handler handle offset payload size o s)
  unfolding call_handler
  call_handler-⟶ offset payload size none s = tt
  call_handler-⟶ offset payload size (some o) s =
      rw (accept-state payload size offset _) (handled-⟶ o s _ _)

  deliver-⟶ :
      (h : Header) (payload : List ℕ) (size : ℕ) (s : Socket)
      → Always (Moves s.state) (deliver handle h payload size s)
  unfolding deliver
  deliver-⟶ h payload size s =
      elim (Bool-cases (big_endian32 h.sequence_number == s.acknowledgement_number)) [
        | inl e ↦ rw e (call_handler-⟶ _ payload size s.handler s)
        | inr e ↦ rw e stay
      ]

  on_ack-⟶ :
      (h : Header) (payload : List ℕ) (size : ℕ) (st : State) (s : Socket)
      → s.state ≡ st
      → Always (Moves s.state) (on_ack handle h payload size st s)
  unfolding on_ack
  on_ack-⟶ h payload size syn_received s e = rw e accepted
  on_ack-⟶ h payload size fin_wait1 s e = rw e peer_answers
  on_ack-⟶ h payload size close_wait s e = close
  on_ack-⟶ h payload size _ s e = elim (Bool-cases (h.flags == ack)) [
    | inl e ↦ rw e stay
    | inr e ↦ rw e (deliver-⟶ h payload size s)
  ]

  dispatch-⟶ :
      (h : Header) (ip : ℕ) (payload : List ℕ) (size : ℕ) (k : Kind) (s : Socket)
      → Always (Moves s.state) (dispatch handle h ip payload size k s)
  unfolding dispatch
  dispatch-⟶ h ip payload size syn_only s = on_syn-⟶ h ip s.state s refl
  dispatch-⟶ h ip payload size syn_ack s = on_syn_ack-⟶ h s.state s refl
  dispatch-⟶ h ip payload size syn_fin s = stay
  dispatch-⟶ h ip payload size fin_seen s = on_fin-⟶ s.state s refl
  dispatch-⟶ h ip payload size ack_only s = on_ack-⟶ h payload size s.state s refl
  dispatch-⟶ h ip payload size data_only s = deliver-⟶ h payload size s

  react-⟶ :
      (h : Header) (ip : ℕ) (payload : List ℕ) (size : ℕ) (s : Socket)
      → Always (Moves s.state) (react handle h ip payload size s)
  unfolding react
  react-⟶ h ip payload size s = elim (Bool-cases (bit_and h.flags rst == 0)) [
    | inl e ↦ rw e (elim (Bool-cases (is_state s.state closed)) [
      | inl c ↦ rw c stay
      | inr o ↦ rw o (dispatch-⟶ h ip payload size (kind_of h.flags) s)
    ])
    | inr e ↦ rw e close
  ]

pub finish-state : (r : Reaction) → (finish r).0.state ≡ r.socket.state
unfolding finish
finish-state r = elim (Bool-cases r.reset) [
  | inl e ↦ rw e (send-state r.socket [] rst)
  | inr e ↦ rw e refl
]

-- The two lists have the same sockets in the same places, each in the same state or one further on.
abbrev pub AllMove : List Socket → List Socket → Type 0
AllMove [] [] = Unit {0}
AllMove [] (t ∷ ts) = ⊥
AllMove (s ∷ ss) [] = ⊥
AllMove (s ∷ ss) (t ∷ ts) = (s.state ⟶ t.state) × AllMove ss ts

AllMove-refl : (ss : List Socket) → AllMove ss ss
AllMove-refl [] = tt
AllMove-refl (s ∷ ss) = (stay, AllMove-refl ss)

AllSet : List Socket → ℕ × Socket → Type 0
AllSet ss p = (t : Socket) → p.1.state ⟶ t.state → AllMove ss (set ss p.0 t)

AllMove-set : (test : Socket → Bool) (ss : List Socket) → Always (AllSet ss) (find_socket test ss)
unfolding find_socket AllSet
AllMove-set test [] = tt
AllMove-set test (x ∷ ss) = elim (Bool-cases (test x)) [
  | inl e ↦ rw e (λ t m. (m, AllMove-refl ss))
  | inr e ↦ rw e (
      Always-bind (AllSet ss) (AllSet (x ∷ ss)) (find_socket test ss) _ (AllMove-set test ss)
        (λ (i, s) h t m. (stay, h t m)))
]

abbrev KeepsSockets : Provider → Provider × List Segment → Type 0
KeepsSockets p q = AllMove p.sockets q.0.sockets

on_found-AllMove :
    (handle : Handle) (src_ip : ℕ) (payload : List ℕ) (size : ℕ) (p : Provider)
    (o : Option (ℕ × Socket))
    → MayDisconnect handle
    → Always (AllSet p.sockets) o
    → Always (KeepsSockets p) (on_found handle src_ip payload size p o)
unfolding on_found AllSet
on_found-AllMove handle src_ip payload size p none may h = AllMove-refl p.sockets
on_found-AllMove handle src_ip payload size p (some (i, s)) may h =
    Always-bind (Moves s.state) (KeepsSockets p)
      (react handle (header_of payload) src_ip payload size s) _
      (react-⟶ handle may (header_of payload) src_ip payload size s)
      (λ r m. h (finish r).0 (rw (finish-state r) m))

-- Whatever segment comes in, whole or not, every socket keeps its place and its state or moves by one
-- edge of the diagram, provided that a handler does no more to a socket than disconnect it.
pub on_received-AllMove :
    (handle : Handle) (src_ip dst_ip : ℕ) (payload : List ℕ) (size : ℕ) (p : Provider)
    → MayDisconnect handle
    → Always (λ q. AllMove p.sockets q.0.sockets) (on_received handle src_ip dst_ip payload size p)
unfolding on_received
on_received-AllMove handle src_ip dst_ip payload size p may = elim (Bool-cases (ltb size 20)) [
  | inl e ↦ rw e (AllMove-refl p.sockets)
  | inr e ↦
      let test = is_for (header_of payload) src_ip dst_ip in
      rw e (
        on_found-AllMove handle src_ip payload size p (find_socket test p.sockets) may
          (AllMove-set test p.sockets))
]

-- The number of sockets in the two lists is the same.
pub AllMove-length : (ss ts : List Socket) → AllMove ss ts → length ts ≡ length ss
AllMove-length [] [] h = refl
AllMove-length [] (t ∷ ts) h = absurd h
AllMove-length (s ∷ ss) [] h = absurd h
AllMove-length (s ∷ ss) (t ∷ ts) h = ap suc (AllMove-length ss ts h.1)
