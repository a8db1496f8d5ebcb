-- ===== src/Samples/Checks.antt =====
-- The theorems on requests and on addresses, at concrete inputs.
use python_hpedockerplugin.Prelude.{
  ◌≡◌, ◌↔◌, refl, String, Bool, true, false, none, some, List, [], ◌∷◌, ◌++◌, contains, arith,
  eq_refl,
}
use python_hpedockerplugin.Request.{Contents, valid, opts_of, validate_name, validate_opts}
use python_hpedockerplugin.Request.Volume.{validate_request, validate_mutually_exclusive_ops}
use python_hpedockerplugin.Request.Volume.Dispatch.{IsAccepted, validate_request-IsAccepted}
use python_hpedockerplugin.Request.Share.{check_valid_fs_mode_string}
use python_hpedockerplugin.Request.Share.Acl.{IsEntry, check_valid_fs_mode_string_iff}
use python_hpedockerplugin.IpPool.{
  BackendMetadata, Backend, vfs_creation_failed, done, failed, Pool, claim, unclaim,
}
use python_hpedockerplugin.IpPool.Claim.{IsClaimed, claim-IsClaimed}
use python_hpedockerplugin.IpPool.Unclaim.{unclaim-claim}
use python_hpedockerplugin.IpPool.Exhausted.{AllTaken, locked_by_claims, claim-AllTaken}
use python_hpedockerplugin.IpPool.{mark_ip_in_use}
use python_hpedockerplugin.IpPool.InUse.{with_used, mark_ip_in_use-claim}
use python_hpedockerplugin.Names.{remove_char, encode_name, get_3par_vol_name, get_vol_id}
use python_hpedockerplugin.Names.Decoded.{contains_dcv, get_vol_id-get_3par_vol_name}
use python_hpedockerplugin.Names.Allowed.{Lacks, encode_name-Lacks}
use python_hpedockerplugin.Prelude.{ℕ, List, length, ◌⊎◌, ◌++◌}
use python_hpedockerplugin.Password.{key_check}
use python_hpedockerplugin.Password.Length.{length-key_check}

abbrev clone_contents : Contents
clone_contents = record { name = "copy1"; opts = some (("cloneOf", "disk") ∷ ("size", "10") ∷ []) }

clone_accepted : validate_request [] clone_contents ≡ valid tt
unfolding validate_request validate_name validate_mutually_exclusive_ops contains validate_opts
clone_accepted = refl

validate_request-IsAccepted_example : IsAccepted (opts_of clone_contents)
validate_request-IsAccepted_example =
    validate_request-IsAccepted [] clone_contents refl clone_accepted

check_valid_fs_mode_string_iff_example :
    (check_valid_fs_mode_string
        (b'A' ∷ [] ++ b':' ∷ (b'f' ∷ b'd' ∷ [] ++ b':' ∷ (b'r' ∷ b'w' ∷ [])))
      ≡ valid tt)
    ↔ IsEntry (b'A' ∷ []) (b'f' ∷ b'd' ∷ []) (b'r' ∷ b'w' ∷ [])
check_valid_fs_mode_string_iff_example =
    check_valid_fs_mode_string_iff (b'A' ∷ []) (b'f' ∷ b'd' ∷ []) (b'r' ∷ b'w' ∷ []) refl refl refl

abbrev first : String → List String → String
first ip rest = ip

first_is_one : (ip : String) (rest : List String) → contains (first ip rest) (ip ∷ rest) ≡ true
unfolding contains
first_is_one ip rest = ground (arith, eq_refl ip)

abbrev always : BackendMetadata → Bool
always metadata = true

abbrev pool : Pool
pool = ("255.255.0.0", "10.0.0.1" ∷ "10.0.0.2" ∷ []) ∷ []

abbrev known : BackendMetadata
known = record {
  ips_in_use = [];
  ips_locked_for_use = "10.0.0.1" ∷ [];
  counter = some 1;
  default_fpgs = none;
}

abbrev backend : Backend
backend = record { metadata = some known; locked_ip = none }

second_claimed : (claim always first pool [] backend).0 ≡ done ("10.0.0.2", "255.255.0.0")
unfolding claim contains
second_claimed = refl

claim-IsClaimed_example :
    IsClaimed pool
      ([] ++ known.ips_locked_for_use)
      known
      ("10.0.0.2", "255.255.0.0")
      (claim always first pool [] backend).1
claim-IsClaimed_example =
    claim-IsClaimed always first pool [] backend known ("10.0.0.2", "255.255.0.0") first_is_one refl
      second_claimed

not_used : contains "10.0.0.2" [] ≡ false
unfolding contains
not_used = refl

unclaim-claim_example :
    (unclaim always (claim always first pool [] backend).1).1.metadata ≡ some known
unclaim-claim_example =
    unclaim-claim always first pool [] backend known ("10.0.0.2", "255.255.0.0") first_is_one refl
      second_claimed not_used refl

exhausted : AllTaken pool (("10.0.0.1" ∷ "10.0.0.2" ∷ []) ++ locked_by_claims backend.metadata)
unfolding contains
exhausted = ((refl, (refl, tt)), tt)

claim-AllTaken_example :
    ((claim always first pool ("10.0.0.1" ∷ "10.0.0.2" ∷ []) backend).0
      ≡ failed vfs_creation_failed)
    ↔ AllTaken pool (("10.0.0.1" ∷ "10.0.0.2" ∷ []) ++ locked_by_claims backend.metadata)
claim-AllTaken_example =
    claim-AllTaken always first pool ("10.0.0.1" ∷ "10.0.0.2" ∷ []) backend (λ metadata. refl)

mark_ip_in_use-claim_example :
    ((mark_ip_in_use always (claim always first pool [] backend).1).0 ≡ done tt)
    × ((mark_ip_in_use always (claim always first pool [] backend).1).1.metadata
        ≡ some (with_used known "10.0.0.2"))
mark_ip_in_use-claim_example =
    mark_ip_in_use-claim always first pool [] backend known ("10.0.0.2", "255.255.0.0") first_is_one
      refl second_claimed refl

abbrev padded : String → String
padded name = "+/a=="

encode_name-Lacks_example :
    Lacks b'+' (encode_name padded "n-1")
    × (Lacks b'/' (encode_name padded "n-1") × Lacks b'=' (encode_name padded "n-1"))
encode_name-Lacks_example = encode_name-Lacks padded "n-1"

abbrev encoded : String → String
encoded name = "rNQ35+G7TkS/7v+GUQuQDg=="

abbrev decoded : String → String
decoded text = "acd437e7-f1bb-4e44-bfee-ff86510b900e"

get_vol_id-get_3par_vol_name_example :
    get_vol_id decoded (get_3par_vol_name encoded "acd437e7-f1bb-4e44-bfee-ff86510b900e")
    ≡ "acd437e7-f1bb-4e44-bfee-ff86510b900e"
unfolding remove_char contains_dcv encode_name
get_vol_id-get_3par_vol_name_example =
    get_vol_id-get_3par_vol_name encoded decoded "acd437e7-f1bb-4e44-bfee-ff86510b900e"
      (record { padded = refl; no_dot = ground arith; no_dash = ground arith }) refl refl

abbrev short_key : List ℕ
short_key = b'k' ∷ b'e' ∷ b'y' ∷ []

length-key_check_example :
    (length (key_check short_key) ≡ 16)
    ⊎ ((length (key_check short_key) ≡ 24) ⊎ (length (key_check short_key) ≡ 32))
length-key_check_example = length-key_check short_key
