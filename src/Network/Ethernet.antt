-- ===== src/Network/Ethernet.antt =====
-- Network/EtherFrame.cpp. A handler is an object of some class that overrides the virtual
-- `OnEtherFrameReceived`: here it is a function of the state that the handlers share, the payload
-- and its size, and returns whether the frame is to be sent back, the payload as it leaves it, and
-- the state. `none` is a fault of the handler, or an access outside the array of 65535 handlers.
use sector_os.Base.{
  ℕ, ◌-◌, Bool, false, ◌||◌, Option, none, some, ◌>>=◌, List, ◌++◌, take, drop, ltb, ◌==◌,
  if◌then◌else◌, update,
}
use sector_os.Network.ByteOrder.{swap16, le16, le48, get16, get48}

abbrev pub EtherHandler : Type 0 → Type 0
EtherHandler S = S → List ℕ → ℕ → Option (Bool × List ℕ × S)

abbrev pub EtherHandlers : Type 0 → Type 0
EtherHandlers S = ℕ → Option (EtherHandler S)

abbrev pub frame_header_size : ℕ
frame_header_size = 14

abbrev pub broadcast : ℕ
broadcast = 0xFFFFFFFFFFFF

-- The constructor of a handler: it stands at its type in the byte order of the wire.
unfoldable pub add_handler : {S : Type 0} → ℕ → EtherHandler S → EtherHandlers S → EtherHandlers S
add_handler ether_type h handlers = update handlers (swap16 ether_type) (some h)

-- The header behind the call: turned round if the frame is to be sent back.
unfoldable pub turn : ℕ → Bool → List ℕ → List ℕ → List ℕ
turn own_mac send_back buffer payload =
    if send_back
    then take 6 (drop 6 buffer) ++ (le48 own_mac ++ (take 2 (drop 12 buffer) ++ payload))
    else take 14 buffer ++ payload

unfoldable pub call_ether_handler :
    {S : Type 0} → ℕ → List ℕ → ℕ → S → Option (EtherHandler S) → Option (Bool × List ℕ × S)
call_ether_handler own_mac buffer size s none = some (false, buffer, s)
call_ether_handler own_mac buffer size s (some h) = do
  (send_back, payload, s') ← h s (drop frame_header_size buffer) (size - frame_header_size)
  some (send_back, turn own_mac send_back buffer payload, s')

-- `OnRawDataReceived`
unfoldable pub on_raw_data_received :
    {S : Type 0} → ℕ → EtherHandlers S → List ℕ → ℕ → S → Option (Bool × List ℕ × S)
on_raw_data_received own_mac handlers buffer size s =
    if ltb size frame_header_size
    then some (false, buffer, s)
    else if get48 buffer 0 == broadcast || get48 buffer 0 == own_mac
    then (if ltb (get16 buffer 12) 65535
        then call_ether_handler own_mac buffer size s (handlers (get16 buffer 12))
        else none)
    else some (false, buffer, s)

-- `Send`: the frame that goes to the card.
unfoldable pub send_frame : ℕ → ℕ → ℕ → List ℕ → List ℕ
send_frame own_mac dst_mac ether_type bytes =
    le48 dst_mac ++ (le48 own_mac ++ (le16 ether_type ++ bytes))
