-- ===== src/Api/Routes/Single.antt =====
-- A request for a name goes to one driver.
use python_hpedockerplugin.Prelude.{◌≡◌, Bool, true, false, ◌&&◌, arith, if◌then◌else◌}
use python_hpedockerplugin.Api.Routes.{
  Outcome, metadata_not_found, Served, by_block, error_of_block, raised_by_block, Drivers,
  volumedriver_remove, volumedriver_unmount, volumedriver_mount, volumedriver_path,
}

-- The block driver was asked.
abbrev pub asked_block : Served → Bool
asked_block by_block = true
asked_block error_of_block = true
asked_block raised_by_block = true
asked_block served = false

-- A share has the name, and the file driver does not say that it is not there.
abbrev pub is_share : Drivers → Bool
is_share drivers = drivers.has_file && drivers.has_share && found drivers.file_outcome
  where
    found : Outcome → Bool
    found metadata_not_found = false
    found outcome = true

abbrev asks : Drivers → Bool
asks drivers = if is_share drivers then false else drivers.has_block

pub record GoesToOne (drivers : Drivers) : Type 0 where
  pub remove : asked_block (volumedriver_remove drivers) ≡ asks drivers
  pub unmount : asked_block (volumedriver_unmount drivers) ≡ asks drivers
  pub mount : asked_block (volumedriver_mount drivers) ≡ asks drivers
  pub path : asked_block (volumedriver_path drivers) ≡ asks drivers

-- A removal, a mount, an unmount and the question for a path ask the block driver exactly where it is
-- configured and no share has the name, however the drivers' operations end.
pub request-GoesToOne : (drivers : Drivers) → GoesToOne drivers
unfolding volumedriver_remove volumedriver_unmount volumedriver_mount volumedriver_path
request-GoesToOne drivers = record {
  remove = ground arith;
  unmount = ground arith;
  mount = ground arith;
  path = ground arith;
}
