-- ===== src/Drivers/Keyboard/Options.antt =====
-- What the commands of `CommandInterpreter` (Drivers/Keyboard.cpp) do with their options.
use sector_os.Base.{
  ℕ, ◌+◌, ◌-◌, ◌*◌, Bool, not, ◌&&◌, Option, none, some, ◌>>=◌, List, [], ◌∷◌, drop, length, get_or,
  leb, ◌==◌, if◌then◌else◌, String,
}
use sector_os.Kernel.IntText.{int_to_char_point}
use sector_os.Drivers.Keyboard.State.{
  Keyboard, Help, page, sd_options, sysinfo_options, net_options, Output, text, help_text, halt,
  stop_virtual_box, reboot, to_serial, detect_cpu, memory_info, kernel_info, kernel_arch,
  kernel_version, kernel_build, os_name, print_sata, net_missing, ip_address, mac_address, letters,
  spells, until_newline, sp_size,
}

unfoldable pub echo_command : Keyboard → Option (List Output)
echo_command k =
    if get_or k.key_buffer 4 0 == 0
    then some (text "cannot print null character" ∷ [])
    else if spells k 5 "$SP"
    then some (letters k.sp)
    else (until_newline (drop 5 k.key_buffer) >>= λ t. some (letters t))

unfoldable pub help_command : Keyboard → Help
help_command k =
    if spells k 5 "sd"
    then sd_options
    else if spells k 5 "sysinfo"
    then sysinfo_options
    else if spells k 5 "1"
    then page 1
    else if spells k 5 "2"
    then page 2
    else if spells k 5 "3"
    then page 3
    else if spells k 5 "4"
    then page 4
    else if spells k 5 "5"
    then page 5
    else page 1

unfoldable pub sd_command : Keyboard → List Output
sd_command k =
    if spells k 3 "h"
    then halt ∷ []
    else if spells k 3 "sv"
    then stop_virtual_box ∷ []
    else if spells k 3 "r"
    then reboot ∷ []
    else []

-- `arg1[0]`, `arg2[0]`; a difference below zero has no case in `INTTOCHARPOINT`.
unfoldable pub add_digits : ℕ → ℕ → String
add_digits a b = if leb 96 (a + b) then int_to_char_point (a + b - 96) else "NaN"

unfoldable pub sub_digits : ℕ → ℕ → String
sub_digits a b = if leb b a then int_to_char_point (a - b) else "NaN"

unfoldable pub mul_digits : ℕ → ℕ → String
mul_digits a b =
    if leb 48 a && leb 48 b
    then int_to_char_point ((a - 48) * (b - 48))
    else if leb a 48 && leb b 48
    then int_to_char_point ((48 - a) * (48 - b))
    else "NaN"

unfoldable pub sysinfo_command : Keyboard → List Output
sysinfo_command k =
    if spells k 8 "-C"
    then detect_cpu ∷ []
    else if spells k 8 "-A"
    then kernel_arch ∷ []
    else if spells k 8 "-V"
    then kernel_version ∷ []
    else if spells k 8 "-B"
    then kernel_build ∷ []
    else if spells k 8 "-H"
    then help_text sysinfo_options ∷ []
    else if spells k 8 "-O"
    then os_name ∷ []
    else if spells k 8 "-D"
    then print_sata ∷ []
    else if spells k 8 "-M"
    then memory_info ∷ []
    else kernel_info ∷ []

-- `card` says whether a driver of the network card is registered.
unfoldable pub net_command : Bool → Keyboard → List Output
net_command card k =
    if not card
    then net_missing ∷ []
    else if spells k 4 "-i"
    then ip_address ∷ []
    else if spells k 4 "-m"
    then mac_address ∷ []
    else if spells k 4 "-h"
    then help_text net_options ∷ []
    else mac_address ∷ []

-- The new prompt has to fit into its array.
unfoldable pub set_prompt : Keyboard → List ℕ → Option (List Output × Keyboard)
set_prompt k t =
    if leb (length t) sp_size
    then some (text "SP is set to : " ∷ letters t, record k { sp = t })
    else none

unfoldable pub set_command : Keyboard → Option (List Output × Keyboard)
set_command k =
    if spells k 4 "SP="
    then (until_newline (drop 7 k.key_buffer) >>= λ t. set_prompt k t)
    else if spells k 4 "SP"
    then some (text "SP is set to : " ∷ letters k.sp, k)
    else some (text "Adding new variable to the environment is not supported yet" ∷ [], k)

abbrev pub to_serials : List ℕ → List Output
to_serials [] = []
to_serials (c ∷ cs) = to_serial c ∷ to_serials cs
