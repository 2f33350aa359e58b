-- ===== src/Pci/Cards.antt =====
-- Hardcom/pci.cpp: the cards of the configuration space, by the addresses of its registers.
pub mod Found
use sector_os.Base.{
  ℕ, zero, suc, ◌+◌, ◌-◌, ◌*◌, ◌/◌, ◌%◌, ◌^◌, ◌≡◌, ◌<◌, ◌≤◌, refl, ap, ◌∙◌, Bool, true, false, not,
  ◌&&◌, ◌||◌, inl, inr, Option, none, some, List, [], ◌∷◌, ◌++◌, leb, ◌==◌, if◌then◌else◌, arith,
  Bool-cases, bit_and,
}
use sector_os.Pci.{
  PciDeviceDescriptor, BaseAddressRegisterType, memory_mapping, input_output, BaseAddressRegister,
  Config, Unset, read_pci, get_base_address_register, get_device_descriptor, find_port_base,
  is_port, is_absent, is_am79c973, device_has_functions, num_functions,
}
use sector_os.Pci.Registers.{pci_id_sum}

-- The bytes of a function's registers from an offset to the end of their four.
abbrev pub field : Config → ℕ → ℕ → ℕ → ℕ → ℕ
field config bus device function offset =
    config (0x80000000 + bus * 65536 + device * 2048 + function * 256 + offset / 4 * 4)
    / 2 ^ (8 * (offset % 4))

-- The port of a register whose members are known.
abbrev pub own_port : BaseAddressRegisterType → ℕ → Option ℕ
own_port memory_mapping address = none
own_port input_output address = if address == 0 then none else some address

abbrev pub or_else : Option ℕ → ℕ → ℕ
or_else none d = d
or_else (some p) d = p

-- The highest of the first registers with a port.
abbrev pub highest : (ℕ → Option ℕ) → ℕ → ℕ → ℕ
highest ports zero d = d
highest ports (suc n) d = or_else (ports n) (highest ports n d)

module _ (config : Config) (unset : Unset) where
  -- The port of a base address register: one for memory, bit 0 clear, has none, nor has the address 0.
  -- There are six of them, none but two with a header of type 1, and what stands behind them is not
  -- initialised.
  abbrev pub bar_port : ℕ → ℕ → ℕ → ℕ → Option ℕ
  bar_port bus device function k =
      let value = field config bus device function (0x10 + 4 * k) in
      let u = unset.base_register bus device function k in
      if leb (6 - 4 * bit_and (field config bus device function 0x0E) 0x7F) k
      then own_port u.type u.address
      else if bit_and value 0x1 == 0
      then none
      else if value / 4 * 4 == 0
      then none
      else some (value / 4 * 4)

  -- A device's first function is looked at, and the others if bit 7 of its header type is set. A card has
  -- the vendor 0x1022 and the device number 0x2000.
  abbrev pub card_at : ℕ → ℕ → ℕ → List PciDeviceDescriptor
  card_at bus device function =
      let at = field config bus device function in
      if function == 0 || not (bit_and (field config bus device 0 0x0E) 0x80 == 0)
      then (if at 0 % 65536 == 0x1022 && at 2 % 65536 == 0x2000
          then record {
            port_base =
                highest (bar_port bus device function) 6 (unset.port_base bus device function);
            interrupt = at 0x3c;
            bus = bus;
            device = device;
            function = function;
            vendor_id = at 0 % 65536;
            device_id = at 2 % 65536;
            class_id = at 0x0b % 256;
            subclass_id = at 0x0a % 256;
            interface_id = at 0x09 % 256;
            revision = at 0x08 % 256;
          }
            ∷ []
          else [])
      else []

-- What there is for `n` numbers, from one on.
abbrev pub gather : (ℕ → List PciDeviceDescriptor) → ℕ → ℕ → List PciDeviceDescriptor
gather f zero k = []
gather f (suc n) k = f k ++ gather f n (k + 1)

-- The cards of the eight buses, of 32 devices of eight functions each.
abbrev pub cards : Config → Unset → List PciDeviceDescriptor
cards config unset =
    gather (λ bus. gather (λ device. gather (card_at config unset bus device) 8 0) 32 0) 8 0
