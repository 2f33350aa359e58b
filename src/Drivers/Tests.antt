-- ===== src/Drivers/Tests.antt =====
-- The keyboard and the network card at concrete inputs.
use sector_os.Base.{
  ◌+◌, ◌≤◌, Ensures, ℕ, zero, suc, ◌*◌, ◌≡◌, refl, ◌≢◌, ◌↔◌, ◌⊎◌, true, false, none, some, List, [],
  ◌∷◌, ◌++◌, arith, codes,
}
use sector_os.Drivers.Card.{Descriptor, Card, RawHandler, send_descriptor, recv_descriptor, receive}
use sector_os.Drivers.Card.Ring.{AtOwned, receive_ends}
use sector_os.Drivers.Card.Buffers.{buffers_overlap}
use sector_os.Kernel.IntText.{int_to_char_point}
use sector_os.Kernel.IntText.Decimal.{read_decimal}
use sector_os.Drivers.Keyboard.Keys.{find_key, ascii_keys, key_code_to_char, keycode_to_ascii}
use sector_os.Drivers.Keyboard.State.{until_newline, is_stored, letter, text, prompt, letters}
use sector_os.Drivers.Keyboard.Options.{echo_command}
use sector_os.Drivers.Keyboard.Commands.{command_interpreter, command_of, carry_out}
use sector_os.Drivers.Keyboard.Handler.{new_keyboard, type_keys}
use sector_os.Drivers.Keyboard.Letters.{IsLetter, tables_agree}
use sector_os.Drivers.Keyboard.Typing.{AreLetters, holding, full_buffer_faults}
use sector_os.Drivers.Keyboard.Lines.{echo_keys, echo_prints}
use sector_os.Drivers.Keyboard.Products.{product_keys, product_codes, mul1_prints}

abbrev first_sp : List ℕ
first_sp = codes "%u@%h[%d};~#> "

-- The driver starts with a clear buffer.
starts_clear : new_keyboard ≡ holding false false false first_sp [] 256
unfolding new_keyboard
starts_clear = refl

abbrev b_key : ℕ
b_key = 0x30

tables_agree_example :
    ((key_code_to_char false b_key ≡ keycode_to_ascii false b_key)
      × ((b_key ≢ 0x30) ⊎ (false ≡ true)))
    ⊎ ((b_key ≡ 0x30)
        × (false ≡ false)
        × (key_code_to_char false b_key ≡ some b'v')
        × (keycode_to_ascii false b_key ≡ some b'b'))
tables_agree_example = tables_agree false b_key (omega arith)

a-IsLetter : IsLetter false 0x1E b'a'
unfolding keycode_to_ascii find_key ascii_keys
a-IsLetter = (omega arith, omega arith, refl)

abbrev repeated : ℕ → ℕ → List ℕ
repeated zero x = []
repeated (suc n) x = x ∷ repeated n x

repeated-AreLetters : (n : ℕ) → AreLetters false (repeated n 0x1E) (repeated n b'a')
repeated-AreLetters zero = tt
repeated-AreLetters (suc n) = (a-IsLetter, repeated-AreLetters n)

full_buffer_faults_example :
    type_keys false 0 (repeated 256 0x1E ++ 0x1E ∷ []) (holding false false false first_sp [] 256)
    ≡ none
unfolding is_stored
full_buffer_faults_example =
    full_buffer_faults false false false false 0 first_sp (repeated 256 0x1E) (repeated 256 b'a')
      0x1E (repeated-AreLetters 256) refl refl

echo_prints_example :
    type_keys false 0
      ((echo_keys ++ (0x1E ∷ (0x1E ∷ []))) ++ 0x1C ∷ [])
      (holding false false false first_sp [] 256)
    ≡ some (
      letters (codes "echo " ++ codes "aa")
          ++ letter b'\n' ∷ (letters (codes "aa") ++ (letter b'\n' ∷ (prompt ∷ []))),
      holding false false false first_sp [] 256,
    )
echo_prints_example =
    echo_prints false false false 0 first_sp (0x1E ∷ (0x1E ∷ [])) (b'a' ∷ []) b'a'
      (a-IsLetter, (a-IsLetter, tt)) (omega arith) (omega arith)

mul1_prints_example :
    (type_keys false 0 (product_keys 7 8 ++ 0x1C ∷ []) (holding false false false first_sp [] 256)
      ≡ some (
        letters (product_codes 7 8)
            ++ letter b'\n' ∷ (text (int_to_char_point (7 * 8)) ∷ (letter b'\n' ∷ (prompt ∷ []))),
        holding false false false first_sp [] 256,
      ))
    × ((read_decimal (int_to_char_point (7 * 8)) ≡ some (7 * 8)) ↔ (7 * 8 ≢ 27))
mul1_prints_example = mul1_prints false false false 0 first_sp 7 8 (omega arith) (omega arith)

-- Enter behind `echo` alone: the loop runs off the end of the array.
echo_alone :
    command_interpreter false (holding false false false first_sp (codes "echo" ++ b'\n' ∷ []) 251)
    ≡ none
unfolding command_interpreter command_of carry_out echo_command until_newline
echo_alone = refl

abbrev unset_descriptor : Descriptor
unset_descriptor = record { address = 0; flags = 0; flags2 = 0; avail = 0 }

abbrev send_at : ℕ → Descriptor
send_at i = send_descriptor 4096 i

abbrev recv_at : ℕ → Descriptor
recv_at i = recv_descriptor 65536 i unset_descriptor

-- The card has filled the first descriptor with a frame of 64 bytes.
abbrev card : Card
card = record {
  send_descriptors =
      send_at 0
      ∷ (send_at 1
          ∷ (send_at 2 ∷ (send_at 3 ∷ (send_at 4 ∷ (send_at 5 ∷ (send_at 6 ∷ (send_at 7 ∷ [])))))));
  current_send = 0;
  recv_descriptors =
      record (recv_at 0) { flags = 0x03000040 }
      ∷ (recv_at 1
          ∷ (recv_at 2 ∷ (recv_at 3 ∷ (recv_at 4 ∷ (recv_at 5 ∷ (recv_at 6 ∷ (recv_at 7 ∷ [])))))));
  current_recv = 0;
  memory = λ a. 0;
}

-- A handler that counts the frames and sends each of them back.
abbrev counting : RawHandler ℕ
counting s buffer size = some (true, buffer, s + 1)

receive_ends_example : Ensures (λ r. AtOwned r.0) (receive 9 (some counting) card 0)
receive_ends_example =
    receive_ends (some counting) (λ s buffer size. tt) card 0
      (record { sends = refl; send_index = omega arith; receives = refl; recv_index = omega arith })

buffers_overlap_example :
    ((send_descriptor 4096 7).address ≤ (send_descriptor 4096 0).address + 64)
    × ((recv_descriptor 4096 7 unset_descriptor).address
        ≤ (recv_descriptor 4096 0 unset_descriptor).address + 64)
buffers_overlap_example =
    buffers_overlap 4096 7 0 unset_descriptor unset_descriptor (omega arith) (omega arith)
      (omega arith)
