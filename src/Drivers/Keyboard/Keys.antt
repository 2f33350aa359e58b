-- ===== src/Drivers/Keyboard/Keys.antt =====
-- Include/Public_VAR.h: `KeyCodeToChar` and `KeycodeToASCII`, and the texts that `HandleInterrupt` of
-- Drivers/Keyboard.cpp prints for the same keys. A character, and a text of one, are the code of the
-- character.
use sector_os.Base.{ℕ, Bool, Option, none, some, List, [], ◌∷◌, ltb, ◌==◌, if◌then◌else◌}

-- The cases of a `switch` over the scan codes: the key, its character, and the one with shift.
abbrev pub Keys : Type 0
Keys = List (ℕ × ℕ × ℕ)

unfoldable pub char_keys : Keys
char_keys =
    (0x29, b'`', b'~')
    ∷ (0x02, b'1', b'!')
    ∷ (0x03, b'2', b'@')
    ∷ (0x04, b'3', b'#')
    ∷ (0x05, b'4', b'$')
    ∷ (0x06, b'5', b'%')
    ∷ (0x07, b'6', b'^')
    ∷ (0x08, b'7', b'&')
    ∷ (0x09, b'8', b'*')
    ∷ (0x0a, b'9', b'(')
    ∷ (0x0b, b'0', b')')
    ∷ (0x0c, b'-', b'_')
    ∷ (0x0d, b'=', b'+')
    ∷ (0x10, b'q', b'Q')
    ∷ (0x11, b'w', b'W')
    ∷ (0x12, b'e', b'E')
    ∷ (0x13, b'r', b'R')
    ∷ (0x14, b't', b'T')
    ∷ (0x15, b'y', b'Y')
    ∷ (0x16, b'u', b'U')
    ∷ (0x17, b'i', b'I')
    ∷ (0x18, b'o', b'O')
    ∷ (0x19, b'p', b'P')
    ∷ (0x1a, b'[', b'{')
    ∷ (0x1b, b']', b'}')
    ∷ (0x1c, b'\n', b'\n')
    ∷ (0x1e, b'a', b'A')
    ∷ (0x1f, b's', b'S')
    ∷ (0x20, b'd', b'D')
    ∷ (0x21, b'f', b'F')
    ∷ (0x22, b'g', b'G')
    ∷ (0x23, b'h', b'H')
    ∷ (0x24, b'j', b'J')
    ∷ (0x25, b'k', b'K')
    ∷ (0x26, b'l', b'L')
    ∷ (0x27, b';', b':')
    ∷ (0x2c, b'z', b'Z')
    ∷ (0x2d, b'x', b'X')
    ∷ (0x2e, b'c', b'C')
    ∷ (0x2f, b'v', b'V')
    ∷ (0x30, b'v', b'B')
    ∷ (0x31, b'n', b'N')
    ∷ (0x32, b'm', b'M')
    ∷ (0x33, b',', b'<')
    ∷ (0x34, b'.', b'>')
    ∷ (0x35, b'/', b'?')
    ∷ (0x39, b' ', b' ')
    ∷ (0x2b, b'\\', b'|')
    ∷ []

unfoldable pub ascii_keys : Keys
ascii_keys =
    (0x29, b'`', b'~')
    ∷ (0x02, b'1', b'!')
    ∷ (0x03, b'2', b'@')
    ∷ (0x04, b'3', b'#')
    ∷ (0x05, b'4', b'$')
    ∷ (0x06, b'5', b'%')
    ∷ (0x07, b'6', b'^')
    ∷ (0x08, b'7', b'&')
    ∷ (0x09, b'8', b'*')
    ∷ (0x0a, b'9', b'(')
    ∷ (0x0b, b'0', b')')
    ∷ (0x0c, b'-', b'_')
    ∷ (0x0d, b'=', b'+')
    ∷ (0x10, b'q', b'Q')
    ∷ (0x11, b'w', b'W')
    ∷ (0x12, b'e', b'E')
    ∷ (0x13, b'r', b'R')
    ∷ (0x14, b't', b'T')
    ∷ (0x15, b'y', b'Y')
    ∷ (0x16, b'u', b'U')
    ∷ (0x17, b'i', b'I')
    ∷ (0x18, b'o', b'O')
    ∷ (0x19, b'p', b'P')
    ∷ (0x1a, b'[', b'{')
    ∷ (0x1b, b']', b'}')
    ∷ (0x1c, b'\n', b'\n')
    ∷ (0x1e, b'a', b'A')
    ∷ (0x1f, b's', b'S')
    ∷ (0x20, b'd', b'D')
    ∷ (0x21, b'f', b'F')
    ∷ (0x22, b'g', b'G')
    ∷ (0x23, b'h', b'H')
    ∷ (0x24, b'j', b'J')
    ∷ (0x25, b'k', b'K')
    ∷ (0x26, b'l', b'L')
    ∷ (0x27, b';', b':')
    ∷ (0x2c, b'z', b'Z')
    ∷ (0x2d, b'x', b'X')
    ∷ (0x2e, b'c', b'C')
    ∷ (0x2f, b'v', b'V')
    ∷ (0x30, b'b', b'B')
    ∷ (0x31, b'n', b'N')
    ∷ (0x32, b'm', b'M')
    ∷ (0x33, b',', b'<')
    ∷ (0x34, b'.', b'>')
    ∷ (0x35, b'/', b'?')
    ∷ (0x39, b' ', b' ')
    ∷ (0x2b, b'\\', b'|')
    ∷ []

-- The cases of one `if` over `isShift` each.
unfoldable pub print_keys : Keys
print_keys =
    (0x29, b'`', b'~')
    ∷ (0x02, b'1', b'!')
    ∷ (0x03, b'2', b'@')
    ∷ (0x04, b'3', b'#')
    ∷ (0x05, b'4', b'$')
    ∷ (0x06, b'5', b'%')
    ∷ (0x07, b'6', b'^')
    ∷ (0x08, b'7', b'&')
    ∷ (0x09, b'8', b'*')
    ∷ (0x0a, b'9', b'(')
    ∷ (0x0b, b'0', b')')
    ∷ (0x0c, b'-', b'_')
    ∷ (0x0d, b'=', b'+')
    ∷ (0x10, b'q', b'Q')
    ∷ (0x11, b'w', b'W')
    ∷ (0x12, b'e', b'E')
    ∷ (0x13, b'r', b'R')
    ∷ (0x14, b't', b'T')
    ∷ (0x15, b'y', b'Y')
    ∷ (0x16, b'u', b'U')
    ∷ (0x17, b'i', b'I')
    ∷ (0x18, b'o', b'O')
    ∷ (0x19, b'p', b'P')
    ∷ (0x1a, b'[', b'{')
    ∷ (0x1b, b']', b'}')
    ∷ (0x1e, b'a', b'A')
    ∷ (0x1f, b's', b'S')
    ∷ (0x20, b'd', b'D')
    ∷ (0x21, b'f', b'F')
    ∷ (0x22, b'g', b'G')
    ∷ (0x23, b'h', b'H')
    ∷ (0x24, b'j', b'J')
    ∷ (0x25, b'k', b'K')
    ∷ (0x26, b'l', b'L')
    ∷ (0x27, b';', b':')
    ∷ (0x28, b'E', b'e')
    ∷ (0x2b, b'\\', b'|')
    ∷ (0x2c, b'z', b'Z')
    ∷ (0x2d, b'x', b'X')
    ∷ (0x2f, b'v', b'V')
    ∷ (0x30, b'b', b'B')
    ∷ (0x31, b'n', b'N')
    ∷ (0x32, b'm', b'M')
    ∷ (0x33, b',', b'<')
    ∷ (0x34, b'.', b'>')
    ∷ (0x35, b'/', b'?')
    ∷ []

-- Without a case the result is left as it is: not initialised, in the first two.
unfoldable pub find_key : Bool → ℕ → Keys → Option ℕ
find_key shift key [] = none
find_key shift key ((k, low, high) ∷ rest) =
    if key == k then some (if shift then high else low) else find_key shift key rest

unfoldable pub key_code_to_char : Bool → ℕ → Option ℕ
unfolding find_key char_keys
key_code_to_char shift key = if ltb key 0x80 then find_key shift key char_keys else none

unfoldable pub keycode_to_ascii : Bool → ℕ → Option ℕ
unfolding find_key ascii_keys
keycode_to_ascii shift key = if ltb key 0x80 then find_key shift key ascii_keys else none
