-- ===== src/Unmount/InUse.antt =====
-- An unmount for one of several containers.
use python_hpedockerplugin.Prelude.{List, [], ◌∷◌}
use python_hpedockerplugin.Volume.{Volume}
use python_hpedockerplugin.Effect.{Call, lock_volume, unlock_volume, etcd_read, etcd_update}

-- The calls that only lock, read, and update a record.
abbrev pub OnlyRecords : List Call → Type 0
OnlyRecords [] = Unit
OnlyRecords (lock_volume name ∷ h) = OnlyRecords h
OnlyRecords (unlock_volume name ∷ h) = OnlyRecords h
OnlyRecords (etcd_read key ∷ h) = OnlyRecords h
OnlyRecords (etcd_update vol ∷ h) = OnlyRecords h
OnlyRecords (c ∷ h) = ⊥
