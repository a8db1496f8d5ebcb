-- ===== src/Api/Create/Validated.antt =====
-- request_validator.py before hpe_storage_api.py: what the validator accepts passes the checks of
-- options that `volumedriver_create` makes again.
use python_hpedockerplugin.Prelude.{
  ℕ, suc, ◌≤◌, String, ◌≡◌, refl, subst, Bool, true, false, List, [], ◌∷◌, inl, inr, All, contains,
  lookup, is_empty, leb, str_eq, Bool-cases, arith, eq_iff, if◌then◌else◌,
}
use python_hpedockerplugin.Request.{
  Operation, create_snapshot_schedule, create_snapshot, clone_volume, import_volume,
  create_replicated_volume, display_help, create_volume, create_share, create_share_help, valid,
  Opts, Contents, keys, opts_of,
}
use python_hpedockerplugin.Request.Volume.{valid_opts, operation_of, validate_request}
use python_hpedockerplugin.Request.Volume.Dispatch.{validate_request-IsAccepted}
use python_hpedockerplugin.Api.{error, exclusive_options, go, ◌>>=◌, ◌>>◌, stop_if}
use python_hpedockerplugin.Api.Create.{
  valid_volume_create_opts, copies_or_groups, copies_or_backend, has_key, count_of, check_keys,
  check_exclusive,
}

-- The keys of the first list that stand in the second.
abbrev count_in : List String → List String → ℕ
count_in [] allowed = 0
count_in (key ∷ rest) allowed =
    let later = count_in rest allowed in if contains key allowed then suc later else later

All-contains :
    (P : String → Type 0) (key : String) (ks : List String)
    → All P ks
    → contains key ks ≡ true
    → P key
unfolding contains
All-contains P key [] all h = cc
All-contains P key (k ∷ ks) all h = elim (Bool-cases (str_eq k key)) [
  | inl same ↦ subst P ((eq_iff k key).0 same) all.0
  | inr other ↦ All-contains P key ks all.1 (ground arith)
]

has_key-keys :
    (key : String) (opts : Opts) → has_key key opts ≡ true → contains key (keys opts) ≡ true
unfolding lookup contains
has_key-keys key [] h = cc
has_key-keys key ((k, v) ∷ opts) h = ground (arith, has_key-keys key opts)

count_of_le :
    (wanted : List String) (opts : Opts) (allowed : List String)
    → All (λ k. contains k allowed ≡ true) (keys opts)
    → count_of wanted opts ≤ count_in wanted allowed
count_of_le [] opts allowed known = omega arith
count_of_le (key ∷ rest) opts allowed known =
    let later = count_of_le rest opts allowed known in
    elim (Bool-cases (has_key key opts)) [
      | inl h ↦
          rw
            (
              h,
              All-contains (λ k. contains k allowed ≡ true) key (keys opts) known
                  (has_key-keys key opts h),
            )
            (omega (arith, later))
      | inr h ↦ ground (arith, later)
    ]

groups_at_most_one : (operation : Operation) → count_in copies_or_groups (valid_opts operation) ≤ 1
unfolding contains
groups_at_most_one create_snapshot_schedule = omega arith
groups_at_most_one create_snapshot = omega arith
groups_at_most_one clone_volume = omega arith
groups_at_most_one import_volume = omega arith
groups_at_most_one create_replicated_volume = omega arith
groups_at_most_one display_help = omega arith
groups_at_most_one create_volume = omega arith
groups_at_most_one create_share = omega arith
groups_at_most_one create_share_help = omega arith

backend_at_most_one :
    (operation : Operation) → count_in copies_or_backend (valid_opts operation) ≤ 1
unfolding contains
backend_at_most_one create_snapshot_schedule = omega arith
backend_at_most_one create_snapshot = omega arith
backend_at_most_one clone_volume = omega arith
backend_at_most_one import_volume = omega arith
backend_at_most_one create_replicated_volume = omega arith
backend_at_most_one display_help = omega arith
backend_at_most_one create_volume = omega arith
backend_at_most_one create_share = omega arith
backend_at_most_one create_share_help = omega arith

abbrev all_in : List String → List String → Bool
all_in [] allowed = true
all_in (k ∷ ks) allowed = let rest = all_in ks allowed in if contains k allowed then rest else false

all_create_opts :
    (operation : Operation) → all_in (valid_opts operation) valid_volume_create_opts ≡ true
unfolding contains
all_create_opts create_snapshot_schedule = refl
all_create_opts create_snapshot = refl
all_create_opts clone_volume = refl
all_create_opts import_volume = refl
all_create_opts create_replicated_volume = refl
all_create_opts display_help = refl
all_create_opts create_volume = refl
all_create_opts create_share = refl
all_create_opts create_share_help = refl

all_in-contains :
    (key : String) (ks allowed : List String)
    → all_in ks allowed ≡ true
    → contains key ks ≡ true
    → contains key allowed ≡ true
unfolding contains
all_in-contains key [] allowed all h = cc
all_in-contains key (k ∷ ks) allowed all h = elim (Bool-cases (str_eq k key)) [
  | inl same ↦ subst (λ x. contains x allowed ≡ true) ((eq_iff k key).0 same) (ground arith)
  | inr other ↦ all_in-contains key ks allowed (ground arith) (ground arith)
]

check_keys_go :
    (allowed ks : List String)
    → all_in allowed valid_volume_create_opts ≡ true
    → All (λ k. contains k allowed ≡ true) ks
    → check_keys ks ≡ go tt
unfolding check_keys
check_keys_go allowed [] all known = refl
check_keys_go allowed (k ∷ ks) all known =
    rw (all_in-contains k allowed valid_volume_create_opts all known.0)
      (check_keys_go allowed ks all known.1)

-- A request with options that the validator accepts passes both checks of its options that the create
-- handler makes after it: every option is a known one, and no two options that exclude each other are
-- given.
pub validate_request-checks :
    (backends : List String) (contents : Contents)
    → is_empty (opts_of contents) ≡ false
    → validate_request backends contents ≡ valid tt
    → (check_keys (keys (opts_of contents)) ≡ go tt) × (check_exclusive (opts_of contents) ≡ go tt)
unfolding check_exclusive ◌>>=◌ stop_if
validate_request-checks backends contents given accepted =
    let known = (validate_request-IsAccepted backends contents given accepted).known in
    let operation = operation_of (keys (opts_of contents)) in
    let groups = count_of_le copies_or_groups (opts_of contents) (valid_opts operation) known in
    let backend = count_of_le copies_or_backend (opts_of contents) (valid_opts operation) known in
    let g = groups_at_most_one operation in
    let b = backend_at_most_one operation in
    (
      check_keys_go (valid_opts operation) (keys (opts_of contents)) (all_create_opts operation)
          known,
      at_most_one (count_of copies_or_groups (opts_of contents))
          (count_of copies_or_backend (opts_of contents)) (omega arith) (omega arith),
    )
  where
    at_most_one :
        (m n : ℕ)
        → m ≤ 1
        → n ≤ 1
        → (stop_if (leb 2 m) (error (exclusive_options copies_or_groups))
            >> stop_if (leb 2 n) (error (exclusive_options copies_or_backend)))
          ≡ go tt
    at_most_one m n hm hn = ground arith
