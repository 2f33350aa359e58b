-- ===== src/Pci/Cards/Found.antt =====
-- What the scan of Hardcom/pci.cpp finds are the cards.
use sector_os.Base.{
  ℕ, zero, suc, ◌+◌, ◌-◌, ◌*◌, ◌/◌, ◌%◌, ◌≡◌, ◌<◌, ◌≤◌, refl, ap, ◌∙◌, Bool, true, false, not, ◌&&◌,
  ◌||◌, inl, inr, List, [], ◌∷◌, ◌++◌, leb, ◌==◌, if◌then◌else◌, arith, Bool-cases, bit_and,
}
use sector_os.Pci.{
  PciDeviceDescriptor, BaseAddressRegisterType, memory_mapping, input_output, BaseAddressRegister,
  Config, Unset, read_pci, get_base_address_register, get_device_descriptor, find_port_base,
  is_port, is_absent, is_am79c973, device_has_functions, num_functions,
}
use sector_os.Pci.Registers.{pci_id_sum}
use sector_os.Pci.Cards.{field, own_port, or_else, highest, bar_port, card_at, gather, cards}

abbrev found_with : PciDeviceDescriptor → PciDeviceDescriptor → List PciDeviceDescriptor
found_with plain dev = if is_absent plain then [] else if is_am79c973 dev then dev ∷ [] else []

abbrev found_from : Config → Unset → PciDeviceDescriptor → List PciDeviceDescriptor
found_from config unset plain = found_with plain (find_port_base config unset 6 0 plain)

-- What the code finds of a function.
abbrev pub found_at : Config → Unset → ℕ → ℕ → ℕ → List PciDeviceDescriptor
found_at config unset bus device function =
    let plain =
      get_device_descriptor config (unset.port_base bus device function) bus device function in
    found_from config unset plain

gather-same :
    (f g : ℕ → List PciDeviceDescriptor) (bound n k : ℕ)
    → n + k ≤ bound
    → ((j : ℕ) → j < bound → f j ≡ g j)
    → gather f n k ≡ gather g n k
gather-same f g bound zero k low same = refl
gather-same f g bound (suc n) k low same =
    ap (λ (l : List PciDeviceDescriptor). l ++ gather f n (k + 1)) (same k (omega arith))
    ∙ ap (λ (l : List PciDeviceDescriptor). g k ++ l)
        (gather-same f g bound n (k + 1) (omega arith) same)

or-true : (b : Bool) → (b || true) ≡ true
or-true true = refl
or-true false = refl

read_pci-field :
    (config : Config) (bus device function offset : ℕ)
    → bus < 256
    → device < 32
    → function < 8
    → offset < 256
    → read_pci config bus device function offset ≡ field config bus device function offset
unfolding read_pci
read_pci-field config bus device function offset b d f o =
    rw (pci_id_sum bus device function offset b d f o) refl

-- The step of the loop over the registers.
same_port :
    (t : BaseAddressRegisterType) (address : ℕ) (prefetchable : Bool) (dev : PciDeviceDescriptor)
    → (if is_port (record { prefetchable = prefetchable; address = address; type = t })
        then record dev { port_base = address }
        else dev)
      ≡ record dev { port_base = or_else (own_port t address) dev.port_base }
unfolding is_port
same_port memory_mapping address prefetchable dev = refl
same_port input_output address prefetchable dev = elim (Bool-cases (address == 0)) [
  | inl e ↦ rw e refl
  | inr e ↦ rw e refl
]

module _ (config : Config) (unset : Unset) (bus device function : ℕ) (b : bus < 256)
    (d : device < 32) (f : function < 8) where
  stored : BaseAddressRegister → PciDeviceDescriptor → PciDeviceDescriptor
  stored r dev = if is_port r then record dev { port_base = r.address } else dev

  bar_stored :
      (k : ℕ) (dev : PciDeviceDescriptor)
      → k < 6
      → stored
          (get_base_address_register config
            (unset.base_register bus device function k)
            bus
            device
            function
            k)
          dev
        ≡ record dev {
          port_base = or_else (bar_port config unset bus device function k) dev.port_base;
        }
  unfolding get_base_address_register stored
  bar_stored k dev low =
      let u = unset.base_register bus device function k in
      let header = read_pci-field config bus device function 0x0E b d f (omega arith) in
      let value = read_pci-field config bus device function (0x10 + 4 * k) b d f (omega arith) in
      let v = field config bus device function (0x10 + 4 * k) in
      let count = 6 - 4 * bit_and (field config bus device function 0x0E) 0x7F in
      elim (Bool-cases (leb count k)) [
        | inl e ↦ rw (header, e) (same_port u.type u.address u.prefetchable dev)
        | inr e ↦ elim (Bool-cases (bit_and v 0x1 == 0)) [
          | inl z ↦ rw (header, e, value, z) (same_port memory_mapping u.address u.prefetchable dev)
          | inr o ↦ rw (header, e, value, o) (same_port input_output (v / 4 * 4) false dev)
        ]
      ]

chosen :
    (v w : ℕ) (x : List PciDeviceDescriptor)
    → (if v == 0x0000 || v == 0xFFFF then [] else if v == 0x1022 && w == 0x2000 then x else [])
      ≡ (if v == 0x1022 && w == 0x2000 then x else [])
chosen v w x = elim (Bool-cases (v == 0x1022)) [
  | inl e ↦ let known : v ≡ 0x1022 = ground arith in rw known refl
  | inr e ↦ elim (Bool-cases (v == 0x0000 || v == 0xFFFF)) [
    | inl o ↦ rw (e, o) refl
    | inr o ↦ rw (e, o) refl
  ]
]

module _ (config : Config) (unset : Unset) where
  overwrite : ℕ → ℕ → ℕ → ℕ → ℕ → ℕ → ℕ
  overwrite bus device function zero k p = p
  overwrite bus device function (suc n) k p =
      overwrite bus device function n (k + 1)
        (or_else (bar_port config unset bus device function k) p)

  bars_stored :
      (n k : ℕ) (dev : PciDeviceDescriptor)
      → dev.bus < 256
      → dev.device < 32
      → dev.function < 8
      → n + k ≤ 6
      → find_port_base config unset n k dev
        ≡ record dev { port_base = overwrite dev.bus dev.device dev.function n k dev.port_base }
  unfolding find_port_base overwrite stored
  bars_stored zero k dev b d f low = refl
  bars_stored (suc n) k dev b d f low =
      let next = record dev {
        port_base = or_else (bar_port config unset dev.bus dev.device dev.function k) dev.port_base;
      } in
      ap (find_port_base config unset n (k + 1))
        (bar_stored config unset dev.bus dev.device dev.function b d f k dev (omega arith))
      ∙ bars_stored n (k + 1) next b d f (omega arith)

  -- The last register that has a port, from the front and from the back.
  overwrite-highest :
      (bus device function p : ℕ)
      → overwrite bus device function 6 0 p
        ≡ highest (bar_port config unset bus device function) 6 p
  unfolding overwrite
  overwrite-highest bus device function p = refl

  module _ (bus device function : ℕ) (b : bus < 256) (d : device < 32) (f : function < 8) where
    described : ℕ → PciDeviceDescriptor
    described port =
        let at = field config bus device function in
        record {
          port_base = port;
          interrupt = at 0x3c;
          bus = bus;
          device = device;
          function = function;
          vendor_id = at 0 % 65536;
          device_id = at 2 % 65536;
          class_id = at 0x0b % 256;
          subclass_id = at 0x0a % 256;
          interface_id = at 0x09 % 256;
          revision = at 0x08 % 256;
        }

    descriptor-described :
        (port : ℕ) → get_device_descriptor config port bus device function ≡ described port
    unfolding get_device_descriptor described
    descriptor-described port =
        rw
          (
            read_pci-field config bus device function 0x3c b d f (omega arith),
            read_pci-field config bus device function 0 b d f (omega arith),
            read_pci-field config bus device function 2 b d f (omega arith),
            read_pci-field config bus device function 0x0b b d f (omega arith),
            read_pci-field config bus device function 0x0a b d f (omega arith),
            read_pci-field config bus device function 0x09 b d f (omega arith),
            read_pci-field config bus device function 0x08 b d f (omega arith),
          )
          refl

    found_at-card_at :
        (function == 0 || not (bit_and (field config bus device 0 0x0E) 0x80 == 0)) ≡ true
        → found_at config unset bus device function ≡ card_at config unset bus device function
    unfolding is_absent is_am79c973 described
    found_at-card_at looked =
        let unset_port = unset.port_base bus device function in
        let at = field config bus device function in
        let port = highest (bar_port config unset bus device function) 6 unset_port in
        let stored_ : find_port_base config unset 6 0 (described unset_port) ≡ described port =
          bars_stored 6 0 (described unset_port) b d f (omega arith)
          ∙ ap described (overwrite-highest bus device function unset_port) in
        let whole =
          ap (found_from config unset) (descriptor-described unset_port)
          ∙ ap (found_with (described unset_port)) stored_
          ∙ chosen (at 0 % 65536) (at 2 % 65536) (described port ∷ []) in
        rw looked whole

  abbrev gather_found : ℕ → ℕ → ℕ → List PciDeviceDescriptor
  gather_found bus device n = gather (found_at config unset bus device) n 0

  only_first :
      (bus device : ℕ)
      → (bit_and (field config bus device 0 0x0E) 0x80 == 0) ≡ true
      → card_at config unset bus device 0 ++ [] ≡ gather (card_at config unset bus device) 8 0
  only_first bus device e = rw e refl

  device_found :
      (bus device : ℕ)
      → bus < 256
      → device < 32
      → gather (found_at config unset bus device) (num_functions config bus device) 0
        ≡ gather (card_at config unset bus device) 8 0
  unfolding num_functions device_has_functions
  device_found bus device b d =
      let header = read_pci-field config bus device 0 0x0E b d (omega arith) (omega arith) in
      let bit_ = bit_and (field config bus device 0 0x0E) 0x80 == 0 in
      elim (Bool-cases bit_) [
        | inl e ↦
            let one : num_functions config bus device ≡ 1 = rw (header, e) refl in
            ap (gather_found bus device) one
            ∙ ap (λ (l : List PciDeviceDescriptor). l ++ [])
                (found_at-card_at bus device 0 b d (omega arith) refl)
            ∙ only_first bus device e
        | inr e ↦
            let eight : num_functions config bus device ≡ 8 = rw (header, e) refl in
            ap (gather_found bus device) eight
            ∙ gather-same (found_at config unset bus device) (card_at config unset bus device) 8 8 0
                (omega arith)
                (λ j lt. found_at-card_at bus device j b d lt (rw e (or-true (j == 0))))
      ]

  -- What the loops of the code find are the cards.
  pub found-cards :
      gather
        (λ bus.
          gather
            (λ device.
              gather (found_at config unset bus device) (num_functions config bus device) 0)
            32
            0)
        8
        0
      ≡ cards config unset
  found-cards = gather-same _ _ 8 8 0 (omega arith) λ bus b.
      gather-same _ _ 32 32 0 (omega arith) λ device d. device_found bus device (omega arith) d
