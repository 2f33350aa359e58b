-- ===== src/Drivers/Manager.antt =====
-- Drivers/Driver.cpp and Drivers/Driver.h: the manager of the drivers. What a driver is, its number and its
-- activation are parameters, as these methods are virtual.
use sector_os.Base.{ℕ, Option, none, some, List, [], ◌∷◌, ◌++◌, length, ltb, ◌==◌, if◌then◌else◌}

-- The entries of `drivers` that are in use: `numDrivers` is their number.
pub record DriverManager {ℓ} (D : Type ℓ) : Type ℓ where
  pub drivers : List D

module _ {ℓ} {D : Type ℓ} where
  unfoldable pub new_driver_manager : DriverManager D
  new_driver_manager = record { drivers = [] }

  -- `AddDriver`, with a write behind the array of 255 a fault.
  unfoldable pub add_driver : D → DriverManager D → Option (DriverManager D)
  add_driver drv m =
      if ltb (length m.drivers) 255 then some record { drivers = m.drivers ++ drv ∷ [] } else none

  -- `activateall`, over the state that the drivers share.
  unfoldable pub activate_all {κ} : {S : Type κ} → (D → S → S) → List D → S → S
  activate_all activate [] s = s
  activate_all activate (d ∷ ds) s = activate_all activate ds (activate d s)

  -- `GetDriver`
  unfoldable pub get_driver : (D → ℕ) → ℕ → List D → Option D
  get_driver unique_driver_id udid [] = none
  get_driver unique_driver_id udid (d ∷ ds) =
      let rest = get_driver unique_driver_id udid ds in
      if unique_driver_id d == udid then some d else rest
