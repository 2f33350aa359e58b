-- ===== src/Network/Tcp/Socket.antt =====
-- The types of tcp.h. A handler is an object of some class that overrides the virtual
-- `HandleTransmissionControlProtocolMessage`; it is known here by a number.
use sector_os.Base.{ℕ, Option, List}

pub data State : Type 0 where
  closed listen syn_sent syn_received established fin_wait1 fin_wait2 closing time_wait close_wait :
      State

-- The number that the enumeration gives a state, by which states are compared.
abbrev pub state_number : State → ℕ
state_number closed = 0
state_number listen = 1
state_number syn_sent = 2
state_number syn_received = 3
state_number established = 4
state_number fin_wait1 = 5
state_number fin_wait2 = 6
state_number closing = 7
state_number time_wait = 8
state_number close_wait = 9

pub record Socket : Type 0 where
  pub remote_port : ℕ  -- uint16_t, as the byte order of the wire leaves it
  pub remote_ip : ℕ  -- uint32_t
  pub local_port : ℕ  -- uint16_t
  pub local_ip : ℕ  -- uint32_t
  pub sequence_number : ℕ  -- uint32_t
  pub acknowledgement_number : ℕ  -- uint32_t
  pub handler : Option ℕ
  pub state : State

-- `sockets` and `numSockets` are one list, in the order of the indices.
pub record Provider : Type 0 where
  pub sockets : List Socket
  pub free_port : ℕ

-- The fields of `TransmissionControlProtocolHeader` that the receiver reads.
pub record Header : Type 0 where
  pub src_port : ℕ
  pub dst_port : ℕ
  pub sequence_number : ℕ
  pub acknowledgement_number : ℕ
  pub header_size32 : ℕ
  pub flags : ℕ

-- What `Send` hands to the IP layer: the peer and the bytes behind the pseudo header.
pub record Segment : Type 0 where
  pub destination : ℕ
  pub bytes : List ℕ

abbrev pub fin : ℕ
fin = 1

abbrev pub syn : ℕ
syn = 2

abbrev pub rst : ℕ
rst = 4

abbrev pub psh : ℕ
psh = 8

abbrev pub ack : ℕ
ack = 16
