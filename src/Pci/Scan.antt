-- ===== src/Pci/Scan.antt =====
-- What the scan of the buses adds to the driver manager, and the numbers of the registers.
use sector_os.Base.{ℕ, ◌≡◌, Option, List}
use sector_os.Pci.Cards.{gather}
use sector_os.Pci.Cards.Found.{found_at}
use sector_os.Pci.{
  PciDeviceDescriptor, Machine, Config, Unset, Allocate, get_pci_driver, num_functions,
}

module _ {H : Type 0} (config : Config) (unset : Unset) (allocate : Allocate H) where
  -- What becomes of the driver, the manager and the heap.
  abbrev IsMade : Option PciDeviceDescriptor → H → PciDeviceDescriptor → Machine H → Type 0
  IsMade driver heap dev m =
      ((get_pci_driver allocate dev m).0 ≡ driver)
      × ((get_pci_driver allocate dev m).1.manager ≡ m.manager)
      × ((get_pci_driver allocate dev m).1.heap ≡ heap)

  abbrev found_of_device : ℕ → ℕ → List PciDeviceDescriptor
  found_of_device bus device =
      gather (found_at config unset bus device) (num_functions config bus device) 0
