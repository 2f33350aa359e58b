-- ===== src/Pci.antt =====
-- Hardcom/pci.cpp and Hardcom/pci.h: the scan of the PCI buses for devices that there are drivers for. The
-- configuration space is a parameter: the 32 bits that the data port gives after a number was written
-- to the command port. So are the values of variables that the source does not initialise.
pub mod Scan
pub mod Registers
pub mod Cards
pub mod Made
mod Tests
use sector_os.Base.{
  ℕ, zero, suc, ◌+◌, ◌-◌, ◌*◌, ◌/◌, ◌%◌, ◌^◌, Bool, true, false, not, ◌&&◌, ◌||◌, Option, none,
  some, ◌>>=◌, List, [], ◌∷◌, ◌++◌, leb, ltb, ◌==◌, if◌then◌else◌, bit_and, bit_or, codes, u8, u16,
  u32, String,
}
use sector_os.Drivers.Manager.{DriverManager, add_driver}

pub record PciDeviceDescriptor : Type 0 where
  pub port_base : ℕ
  pub interrupt : ℕ
  pub bus : ℕ
  pub device : ℕ
  pub function : ℕ
  pub vendor_id : ℕ
  pub device_id : ℕ
  pub class_id : ℕ
  pub subclass_id : ℕ
  pub interface_id : ℕ
  pub revision : ℕ

pub data BaseAddressRegisterType : Type 0 where
  memory_mapping : BaseAddressRegisterType
  input_output : BaseAddressRegisterType

pub record BaseAddressRegister : Type 0 where
  pub prefetchable : Bool
  pub address : ℕ
  pub type : BaseAddressRegisterType

-- What is printed: texts, and bytes by `printHex`.
pub data PciOutput : Type 0 where
  print : List ℕ → PciOutput
  print_hex : ℕ → PciOutput

-- The number that `ReadPCI` and `WritePCI` write to the command port.
unfoldable pub pci_id : ℕ → ℕ → ℕ → ℕ → ℕ
pci_id bus device function register_offset =
    bit_or
      (bit_or (bit_or (bit_or 0x80000000 (bus % 256 * 65536)) (device % 32 * 2048))
        (function % 8 * 256))
      (bit_and register_offset 0xFC)

abbrev pub Config : Type 0
Config = ℕ → ℕ

-- `ReadPCI`
unfoldable pub read_pci : Config → ℕ → ℕ → ℕ → ℕ → ℕ
unfolding pci_id
read_pci config bus device function register_offset =
    config (pci_id bus device function register_offset) / 2 ^ (8 * (register_offset % 4))

-- `WritePCI`: the writes to the command port and to the data port.
unfoldable pub write_pci : ℕ → ℕ → ℕ → ℕ → ℕ → ℕ × ℕ
unfolding pci_id
write_pci bus device function register_offset value =
    (pci_id bus device function register_offset, value)

-- `DeviceHasFunctions`
unfoldable pub device_has_functions : Config → ℕ → ℕ → Bool
unfolding read_pci
device_has_functions config bus device = not (bit_and (read_pci config bus device 0 0x0E) 0x80 == 0)

-- `GetBaseAddressRegister`, with what its result holds uninitialised. `6 - 4 * headertype` below zero
-- admits no register, as 0 does.
unfoldable pub get_base_address_register :
    Config → BaseAddressRegister → ℕ → ℕ → ℕ → ℕ → BaseAddressRegister
unfolding read_pci
get_base_address_register config unset bus device function bar =
    let headertype = bit_and (read_pci config bus device function 0x0E) 0x7F in
    let bar_value = read_pci config bus device function (0x10 + 4 * bar) in
    if leb (6 - 4 * headertype) bar
    then unset
    else if bit_and bar_value 0x1 == 0
    then record unset { type = memory_mapping }
    else record { prefetchable = false; address = bar_value / 4 * 4; type = input_output }

-- `GetDeviceDescriptor`. `portBase` is not initialised. The members cut what is read to their widths.
unfoldable pub get_device_descriptor : Config → ℕ → ℕ → ℕ → ℕ → PciDeviceDescriptor
unfolding read_pci
get_device_descriptor config unset bus device function =
    let read = read_pci config bus device function in
    record {
      port_base = unset;
      interrupt = read 0x3c;
      bus = bus;
      device = device;
      function = function;
      vendor_id = u16 (read 0x00);
      device_id = u16 (read 0x02);
      class_id = u8 (read 0x0b);
      subclass_id = u8 (read 0x0a);
      interface_id = u8 (read 0x09);
      revision = u8 (read 0x08);
    }

-- The state that the scan changes: the driver manager, the heap and what is printed.
pub record Machine (H : Type 0) : Type 0 where
  pub manager : DriverManager PciDeviceDescriptor
  pub heap : H
  pub output : List PciOutput

-- The answers of the memory manager to requests for the size of a driver: whether there was room.
abbrev pub Allocate : Type 0 → Type 0
Allocate H = H → Bool × H

unfoldable pub say : {H : Type 0} → String → Machine H → Machine H
say text m = record m { output = m.output ++ print (codes text) ∷ [] }

unfoldable pub is_am79c973 : PciDeviceDescriptor → Bool
is_am79c973 dev = dev.vendor_id == 0x1022 && dev.device_id == 0x2000

-- The case of the card. Its driver stands for the descriptor that it is made from. It is allocated twice,
-- the second time by `new`.
unfoldable pub make_driver :
    {H : Type 0}
    → Allocate H
    → PciDeviceDescriptor
    → Machine H
    → Option PciDeviceDescriptor × Machine H
unfolding say
make_driver allocate dev m =
    let m' = say "AMD AM79C973 \n" m in
    let (room, heap) = allocate m'.heap in
    let (again, heap') = allocate heap in
    if room
    then (some dev, say "INSTANTIALIZED AMD AM79C973 \n" (record m' { heap = heap' }))
    else (none, say "instantiation failed" (record m' { heap = heap }))

-- The other cases.
unfoldable pub name_device : {H : Type 0} → PciDeviceDescriptor → Machine H → Machine H
unfolding say
name_device dev m =
    let m' =
      if dev.vendor_id == 0x8086 && dev.device_id == 0x7000
      then say "82371SB PIIX3 ISA \n" m
      else m in
    if dev.class_id == 0x03 && dev.subclass_id == 0x00 then say "VGA \n" m' else m'

-- `GetDriver`
unfoldable pub get_pci_driver :
    {H : Type 0}
    → Allocate H
    → PciDeviceDescriptor
    → Machine H
    → Option PciDeviceDescriptor × Machine H
unfolding is_am79c973 make_driver name_device
get_pci_driver allocate dev m =
    if is_am79c973 dev then make_driver allocate dev m else (none, name_device dev m)

-- The values on the stack that are read without having been written.
pub record Unset : Type 0 where
  pub base_register : ℕ → ℕ → ℕ → ℕ → BaseAddressRegister
  pub port_base : ℕ → ℕ → ℕ → ℕ

unfoldable pub is_port : BaseAddressRegister → Bool
is_port bar = elim bar.type [ memory_mapping ↦ false | input_output ↦ not (bar.address == 0) ]

-- `for (barNum = 0; barNum < 6; barNum++)`, from a register on, as many.
unfoldable pub find_port_base : Config → Unset → ℕ → ℕ → PciDeviceDescriptor → PciDeviceDescriptor
unfolding get_base_address_register is_port
find_port_base config unset zero bar_num dev = dev
find_port_base config unset (suc n) bar_num dev =
    let bar =
      get_base_address_register config (unset.base_register dev.bus dev.device dev.function bar_num)
        dev.bus dev.device dev.function bar_num in
    find_port_base config unset n (bar_num + 1)
      (if is_port bar then record dev { port_base = bar.address } else dev)

-- The line that is printed for a device.
unfoldable pub device_line : PciDeviceDescriptor → List PciOutput
device_line dev =
    print (codes "PCI BUS ")
    ∷ (print_hex (u8 dev.bus)
        ∷ (print (codes ", DEVICE ")
            ∷ (print_hex (u8 dev.device)
                ∷ (print (codes ", FUNCTION ")
                    ∷ (print_hex (u8 dev.function)
                        ∷ (print (codes " = VENDOR ")
                            ∷ (print_hex (dev.vendor_id / 256 % 256)
                                ∷ (print_hex (u8 dev.vendor_id)
                                    ∷ (print (codes ", DEVICE ")
                                        ∷ (print_hex (dev.device_id / 256 % 256)
                                            ∷ (print_hex (u8 dev.device_id)
                                                ∷ (print (codes "\n") ∷ []))))))))))))

unfoldable pub is_absent : PciDeviceDescriptor → Bool
is_absent dev = dev.vendor_id == 0x0000 || dev.vendor_id == 0xFFFF

-- The functions of a device that are looked at.
unfoldable pub num_functions : Config → ℕ → ℕ → ℕ
unfolding device_has_functions
num_functions config bus device = if device_has_functions config bus device then 8 else 1

module _ {H : Type 0} (config : Config) (unset : Unset) (allocate : Allocate H) where
  -- The body of the three loops of `SelectDrivers`.
  unfoldable pub select_driver : ℕ → ℕ → ℕ → Machine H → Option (Machine H)
  unfolding get_device_descriptor is_absent find_port_base get_pci_driver device_line
  select_driver bus device function m =
      let plain =
        get_device_descriptor config (unset.port_base bus device function) bus device function in
      let dev = find_port_base config unset 6 0 plain in
      let (driver, m') = get_pci_driver allocate dev m in
      if is_absent plain then some m else do
        manager ← elim driver [ none ↦ some m'.manager | some d ↦ add_driver d m'.manager ]
        some (record m' { manager = manager; output = m'.output ++ device_line dev })

  -- The three loops, each from a number on, as many rounds.
  unfoldable pub select_functions : ℕ → ℕ → ℕ → ℕ → Machine H → Option (Machine H)
  unfolding select_driver
  select_functions bus device zero function m = some m
  select_functions bus device (suc n) function m = do
    m' ← select_driver bus device function m
    select_functions bus device n (function + 1) m'

  unfoldable pub select_devices : ℕ → ℕ → ℕ → Machine H → Option (Machine H)
  unfolding select_functions num_functions
  select_devices bus zero device m = some m
  select_devices bus (suc n) device m = do
    m' ← select_functions bus device (num_functions config bus device) 0 m
    select_devices bus n (device + 1) m'

  unfoldable pub select_buses : ℕ → ℕ → Machine H → Option (Machine H)
  unfolding select_devices
  select_buses zero bus m = some m
  select_buses (suc n) bus m = do m' ← select_devices bus 32 0 m; select_buses n (bus + 1) m'

  -- `SelectDrivers`
  unfoldable pub select_drivers : Machine H → Option (Machine H)
  unfolding select_buses
  select_drivers m = select_buses 8 0 m
