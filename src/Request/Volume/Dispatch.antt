-- ===== src/Request/Volume/Dispatch.antt =====
-- Which validator a request to the block driver meets.
use python_hpedockerplugin.Prelude.{
  String, ◌≡◌, ◌⊎◌, true, false, List, [], ◌∷◌, contains, is_empty, arith, All,
}
use python_hpedockerplugin.Request.{
  Operation, create_snapshot_schedule, create_snapshot, clone_volume, import_volume,
  create_replicated_volume, valid, Opts, Contents, and_then, check, keys, opts_of, missing,
  validate_opts,
}
use python_hpedockerplugin.Request.Volume.{
  operation_of, first_found, validate_mutually_exclusive_ops, validate_operation, validate_given,
  validate_request, valid_opts, mandatory_opts,
}

-- Each option that names a source selects its own operation.
pub record Selects (received : List String) : Type 0 where
  pub clone : contains "cloneOf" received ≡ true → operation_of received ≡ clone_volume
  pub import : contains "importVol" received ≡ true → operation_of received ≡ import_volume
  pub replication :
      contains "replicationGroup" received ≡ true → operation_of received ≡ create_replicated_volume
  pub copy :
      contains "virtualCopyOf" received ≡ true
      → (operation_of received ≡ create_snapshot)
        ⊎ (operation_of received ≡ create_snapshot_schedule)

exclusive-Selects :
    (received : List String)
    → validate_mutually_exclusive_ops received ≡ valid tt
    → Selects received
unfolding validate_mutually_exclusive_ops check missing operation_of first_found
exclusive-Selects received accepted = record {
  clone = λ h. ground arith;
  import = λ h. ground arith;
  replication = λ h. ground arith;
  copy = λ h. ground arith;
}

missing-All :
    (wanted received : List String)
    → is_empty (missing wanted received) ≡ true
    → All (λ w. contains w received ≡ true) wanted
unfolding missing
missing-All [] received none_missing = tt
missing-All (w ∷ wanted) received none_missing =
    (ground arith, missing-All wanted received (ground arith))

-- What an accepted request satisfies.
pub record IsAccepted (opts : Opts) : Type 0 where
  pub selects : Selects (keys opts)
  pub known : All (λ k. contains k (valid_opts (operation_of (keys opts))) ≡ true) (keys opts)
  pub complete :
      All (λ k. contains k (keys opts) ≡ true) (mandatory_opts (operation_of (keys opts)))

validate_opts-All :
    (operation : Operation) (opts : Opts)
    → is_empty opts ≡ false
    → validate_opts operation opts (valid_opts operation) (mandatory_opts operation) ≡ valid tt
    → All (λ k. contains k (valid_opts operation) ≡ true) (keys opts)
      × All (λ k. contains k (keys opts) ≡ true) (mandatory_opts operation)
unfolding validate_opts and_then check
validate_opts-All operation opts given accepted = (
  missing-All (keys opts) (valid_opts operation) (ground arith),
  missing-All (mandatory_opts operation) (keys opts) (ground arith),
)

-- An accepted request to the block driver that has options: a clone, an import, a replicated volume
-- and a copy each meet the validator of their own operation, whatever other options are given; every
-- option is one of that operation, and none of its mandatory options is missing.
pub validate_request-IsAccepted :
    (backends : List String) (contents : Contents)
    → is_empty (opts_of contents) ≡ false
    → validate_request backends contents ≡ valid tt
    → IsAccepted (opts_of contents)
unfolding validate_request validate_given validate_operation and_then
validate_request-IsAccepted backends contents given accepted =
    let all =
      validate_opts-All (operation_of (keys (opts_of contents))) (opts_of contents) given
        (ground arith) in
    record {
      selects = exclusive-Selects (keys (opts_of contents)) (ground arith);
      known = all.0;
      complete = all.1;
    }
