-- ===== src/Pci/Tests.antt =====
-- A machine with one card, behind the third device number of the first bus.
use sector_os.Base.{
  ℕ, ◌+◌, ◌/◌, ◌≡◌, refl, true, false, [], ◌∷◌, ◌==◌, if◌then◌else◌, arith, ◌&&◌, ltb, ltb,
}
use sector_os.Pci.{Machine, Config, Unset, Allocate, memory_mapping, pci_id}
use sector_os.Pci.Cards.{card_at}
use sector_os.Pci.Registers.{pci_id-injective}

abbrev card_id : ℕ
card_id = 0x80001800

-- The card, with its ports from 0xC000 on. What is not there reads as ones.
abbrev config : Config
config id =
    if id == card_id
    then 0x20001022
    else if id == card_id + 0x08
    then 0x02000010
    else if id == card_id + 0x0C
    then 0
    else if id == card_id + 0x10
    then 0xC001
    else if id == card_id + 0x3C
    then 0x0B
    else if ltb card_id id && ltb id (card_id + 0x40)
    then 0
    else 0xFFFFFFFF

abbrev unset : Unset
unset = record {
  base_register = λ bus device function bar. record {
    prefetchable = false;
    address = 0;
    type = memory_mapping;
  };
  port_base = λ bus device function. 0;
}

abbrev allocate : Allocate ℕ
allocate h = (true, h + 1)

abbrev machine : Machine ℕ
machine = record { manager = record { drivers = [] }; heap = 0; output = [] }

-- The card is found, with its ports.
card_found :
    card_at config unset 0 3 0
    ≡ record {
      port_base = 0xC000;
      interrupt = 0x0B;
      bus = 0;
      device = 3;
      function = 0;
      vendor_id = 0x1022;
      device_id = 0x2000;
      class_id = 0x02;
      subclass_id = 0x00;
      interface_id = 0x00;
      revision = 0x10;
    }
      ∷ []
card_found = refl

abbrev a_bus : ℕ
a_bus = 1

abbrev a_device : ℕ
a_device = 3

abbrev header_type : ℕ
header_type = 0x0E

abbrev cache_line : ℕ
cache_line = 0x0C

pci_id-injective_example :
    (a_bus ≡ a_bus) × (a_device ≡ a_device) × (a_bus ≡ a_bus) × (header_type / 4 ≡ cache_line / 4)
unfolding pci_id
pci_id-injective_example =
    pci_id-injective a_bus a_device a_bus header_type a_bus a_device a_bus cache_line
      (omega arith, omega arith, omega arith, omega arith)
      (omega arith, omega arith, omega arith, omega arith) refl
