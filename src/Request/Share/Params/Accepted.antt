-- ===== src/Request/Share/Params/Accepted.antt =====
-- What holds of a share whose request the file driver accepts.
use python_hpedockerplugin.Prelude.{
  ◌*◌, String, ◌≡◌, ◌≢◌, refl, subst, Bool, true, false, Option, none, some, List, lookup, is_some,
  inl, inr, str_eq, Option-cases, if◌then◌else◌, arith, eq_iff,
}
use python_hpedockerplugin.Request.{Reason, Checked, valid, invalid, Opts, check}
use python_hpedockerplugin.Request.Share.{validate_fs_mode, validate_fs_owner}
use python_hpedockerplugin.Python.{ℤ, pos, int, above}
use python_hpedockerplugin.Request.Share.Params.{
  FileConfig, ShareArgs, get_str_option, get_int_option, int_or, ◌>>=◌, scaled, check_if_given,
  or_invalid, is_int, backend_name, create_share_req_params,
}

-- A property of an accepted value.
pub record OnValid {A : Type 0} (P : A → Type 0) (m : Checked A) : Type 0 where
  pub at : (a : A) → m ≡ valid a → P a

pub OnValid-here : {A : Type 0} {P : A → Type 0} (a : A) → P a → OnValid P (valid a)
OnValid-here {P} a p = record { at = λ b e. subst P (cc e) p }

refused : {A : Type 0} {P : A → Type 0} (reason : Reason) → OnValid P (invalid reason)
refused reason = record { at = λ a e. cc e }

module _ {A B : Type 0} {P : B → Type 0} where
  pub OnValid-bind :
      (m : Checked A) (f : A → Checked B)
      → ((a : A) → m ≡ valid a → OnValid P (f a))
      → OnValid P (m >>= f)
  unfolding ◌>>=◌
  OnValid-bind (invalid reason) f h = refused reason
  OnValid-bind (valid a) f h = h a refl

  pub OnValid-or_invalid :
      (o : Option A) (reason : Reason) (f : A → Checked B)
      → ((a : A) → o ≡ some a → OnValid P (f a))
      → OnValid P (or_invalid o reason >>= f)
  unfolding ◌>>=◌ or_invalid
  OnValid-or_invalid none reason f h = refused reason
  OnValid-or_invalid (some a) reason f h = h a refl

pub OnValid-check :
    {B : Type 0} {P : B → Type 0} (test : Bool) (reason : Reason) (f : Unit {0} → Checked B)
    → (test ≡ true → OnValid P (f tt))
    → OnValid P (check test reason >>= f)
unfolding ◌>>=◌ check
OnValid-check false reason f h = refused reason
OnValid-check true reason f h = h refl

-- The text of an option: an empty one counts as absent.
abbrev pub text_given : Option String → Option String
text_given none = none
text_given (some text) = if str_eq text "" then none else some text

-- The size that is asked for, in GiB: 1024 where none is given.
abbrev pub AsksFor : Option String → ℤ → Type 0
AsksFor none size_gib = size_gib ≡ pos 1024
AsksFor (some text) size_gib = int text ≡ some size_gib

-- A share that can be created on its backend, as the options ask for it.
pub record IsCreatable (configs : List (String × FileConfig)) (opts : Opts) (args : ShareArgs)
    : Type 0 where
  pub config : FileConfig
  pub configured : lookup args.backend configs ≡ some config
  pub for_files : args.backend ≢ "DEFAULT_BLOCK"
  pub has_cpg : args.cpg ≢ ""
  pub mode_asked : args.fs_mode ≡ text_given (lookup "fsMode" opts)
  pub owner_asked : args.fs_owner ≡ text_given (lookup "fsOwner" opts)
  pub mode : check_if_given validate_fs_mode args.fs_mode ≡ valid tt
  pub owner : check_if_given (validate_fs_owner is_int) args.fs_owner ≡ valid tt
  pub owned : is_some args.fs_mode ≡ true → is_some args.fs_owner ≡ true
  pub size_gib : ℤ
  pub size_asked : AsksFor (text_given (lookup "size" opts)) size_gib
  pub in_mib : args.size ≡ scaled size_gib
  pub fits : above size_gib (config.hpe3par_default_fpg_size * 1024) ≡ false

text_given_lem :
    (o : Option String)
    → elim o [ none ↦ none | some opt ↦ if str_eq opt "" then none else some opt ] ≡ text_given o
text_given_lem none = refl
text_given_lem (some text) = refl

given_lem :
    (opts : Opts) (key : String) → get_str_option opts key none ≡ text_given (lookup key opts)
given_lem opts key = text_given_lem (lookup key opts)

size_lem :
    (given : Option String) (size_gib : ℤ)
    → int_or given (pos 1024) "size" ≡ valid size_gib
    → AsksFor given size_gib
size_lem none size_gib e = cc e
size_lem (some text) size_gib e = elim (Option-cases (int text)) [
  | inl bad ↦ ground arith
  | inr (n, read) ↦ ground arith
]

asked_lem :
    (opts : Opts) (size_gib : ℤ)
    → get_int_option opts "size" (pos 1024) ≡ valid size_gib
    → AsksFor (text_given (lookup "size" opts)) size_gib
unfolding get_int_option
asked_lem opts size_gib e =
    subst (λ o. AsksFor o size_gib) (given_lem opts "size")
      (size_lem (get_str_option opts "size" none) size_gib e)

accepted :
    (configs : List (String × FileConfig)) (default name : String) (opts : Opts)
    → OnValid (IsCreatable configs opts) (create_share_req_params configs default name opts)
unfolding create_share_req_params
accepted configs default name opts = OnValid-check _ _ _ λ not_block.
    OnValid-or_invalid _ _ _ λ config found. OnValid-or_invalid _ _ _ λ cpg e.
      OnValid-check _ _ _ λ some_cpg. OnValid-bind _ _ λ u mode. OnValid-bind _ _ λ v owner.
        OnValid-check _ _ _ λ owned. OnValid-bind _ _ λ size_gib e1. OnValid-check _ _ _ λ fits.
          OnValid-bind _ _ λ readonly e2. OnValid-here _ (record {
            config = config;
            configured = found;
            for_files =
                λ q. ground (arith, eq_iff (backend_name configs default opts) "DEFAULT_BLOCK");
            has_cpg = λ q. ground (arith, eq_iff cpg "");
            mode_asked = given_lem opts "fsMode";
            owner_asked = given_lem opts "fsOwner";
            mode = mode;
            owner = owner;
            owned = λ given. ground arith;
            size_gib = size_gib;
            size_asked = asked_lem opts size_gib e1;
            in_mib = refl;
            fits = ground arith;
          })

-- A share that a request asks for, where the request is accepted: its backend is configured for files
-- and is not the one of the block driver; it has a group of disks; its mode and its owner are valid
-- where they are given, they are those that the options give, and a mode comes with an owner; its size
-- in MiB is that of the whole number of GiB that the option gives, or of 1024 GiB without one, and not
-- above the size of a provisioning group of the backend.
pub create_share_req_params-IsCreatable :
    (configs : List (String × FileConfig)) (default name : String) (opts : Opts) (args : ShareArgs)
    → create_share_req_params configs default name opts ≡ valid args
    → IsCreatable configs opts args
create_share_req_params-IsCreatable configs default name opts args =
    (accepted configs default name opts).at args
