-- ===== src/Api/Create/Sound.antt =====
-- What holds of a new volume that hpe_storage_api.py asks for.
use python_hpedockerplugin.Prelude.{
  String, ◌≡◌, refl, sym, ap, ◌∙◌, subst, [], ◌∷◌, Bool, true, false, ◌&&◌, Option, none, some,
  List, lookup, ◌⊎◌, inl, inr, contains, is_empty, Option-cases, arith,
}
use python_hpedockerplugin.Request.{Opts, Contents, opts_of}
use python_hpedockerplugin.Python.{ℤ, is_zero, truthy}
use python_hpedockerplugin.Api.{Answer, create_volume, CreateRequest, go, ◌>>=◌, BackendConfig}
use python_hpedockerplugin.Api.Inversion.{
  OnGo, OnGo-here, OnGo-bind, OnGo-if, OnGo-or_stop, OnGo-stop_if,
}
use python_hpedockerplugin.Api.Replication.{validate_rcg_params}
use python_hpedockerplugin.Api.Snapshot.{volumedriver_create_snapshot, volumedriver_clone_volume}
use python_hpedockerplugin.Api.Create.{
  valid_snap_schedule_opts, has_key, has_any, given, check_size, check_backend, populate,
  create_snapshot_of, create_on_backend, create_regular, create_with, create_with_opts,
  create_block, volumedriver_create, config_keys, default_request,
}

check_size-nonzero : (o : Option String) → OnGo (λ n. is_zero n ≡ false) (check_size o)
unfolding check_size
check_size-nonzero none = OnGo-here _ refl
check_size-nonzero (some value) =
    OnGo-or_stop _ _ _ λ size e. OnGo-stop_if _ _ _ λ nonzero. OnGo-here _ nonzero

-- An answer that asks for a new volume asks for one with the property.
abbrev pub OnCreate : (CreateRequest → Type 0) → Answer → Type 0
OnCreate P (create_volume request) = P request
OnCreate P answer = Unit

module _ (configs : List (String × BackendConfig)) (managers : List String)
    (default_backend timestamp : String) where
  -- The backend is the default one, or it is configured and the orchestrator has an entry for it.
  abbrev pub IsBackend : String → Type 0
  IsBackend backend =
      (backend ≡ default_backend)
      ⊎ ((contains backend (config_keys configs) ≡ true) × (contains backend managers ≡ true))

  pub record IsSound (contents : Contents) (request : CreateRequest) : Type 0 where
    pub backend : IsBackend request.current_backend
    pub size : is_zero request.vol_size ≡ false
    pub cpg : (truthy request.cpg && truthy request.rcg_name) ≡ false
    pub snap_cpg : (truthy request.snap_cpg && truthy request.rcg_name) ≡ false
    pub replication : validate_rcg_params configs request.rcg_name request.current_backend ≡ go tt
    pub not_a_copy :
        (has_key "virtualCopyOf" (opts_of contents) ≡ false)
        × ((has_key "cloneOf" (opts_of contents) ≡ false)
            × (has_any valid_snap_schedule_opts (opts_of contents) ≡ false))

  populate-Known :
      (name backend : String) (opts : Opts)
      → OnGo
          (λ r. (r.current_backend ≡ backend) × (is_zero r.vol_size ≡ false))
          (populate configs managers default_backend timestamp name backend opts)
  unfolding populate
  populate-Known name backend opts = OnGo-bind _ _ λ size e. OnGo-bind _ _ λ compression e1.
      OnGo-bind _ _ λ flash e2. OnGo-bind _ _ λ owner e3. OnGo-bind _ _ λ mode e4.
        OnGo-bind _ _
          λ delay e5. OnGo-here _ (refl, (check_size-nonzero (given "size" opts)).at size e)

  check_backend-IsBackend :
      (o : Option String)
      → OnGo IsBackend (check_backend (config_keys configs) managers default_backend o)
  unfolding check_backend
  check_backend-IsBackend none = OnGo-here _ (inl refl)
  check_backend-IsBackend (some backend) = OnGo-stop_if _ _ _ λ not_file.
      OnGo-stop_if _ _ _
        λ configured. OnGo-stop_if _ _ _ λ managed. OnGo-here _ (inr (ground arith, ground arith))

  -- What the last checks let through.
  record Concludes (request made : CreateRequest) : Type 0 where
    same : request ≡ made
    no_cpg : (truthy made.cpg && truthy made.rcg_name) ≡ false
    no_snap_cpg : (truthy made.snap_cpg && truthy made.rcg_name) ≡ false
    replicates : validate_rcg_params configs made.rcg_name made.current_backend ≡ go tt

  create_on_backend-Concludes :
      (request : CreateRequest)
      → OnGo
          (OnCreate (Concludes request))
          (create_on_backend configs managers default_backend timestamp request)
  unfolding create_on_backend
  create_on_backend-Concludes request = OnGo-stop_if _ _ _ λ apart. OnGo-bind _ _ λ u e.
      OnGo-here _
        (record { same = refl; no_cpg = ground arith; no_snap_cpg = ground arith; replicates = e })

  clone-OnCreate :
      (P : CreateRequest → Type 0) (name : String) (opts : Opts)
      → OnGo (OnCreate P) (volumedriver_clone_volume name opts)
  unfolding volumedriver_clone_volume
  clone-OnCreate P name opts = OnGo-bind _ _ λ size e. OnGo-or_stop _ _ _ λ src e1. OnGo-here _ tt

  snapshot-OnCreate :
      (P : CreateRequest → Type 0) (name : String) (opts : Opts) (delay : ℤ)
      → OnGo (OnCreate P) (create_snapshot_of timestamp name opts delay)
  unfolding create_snapshot_of volumedriver_create_snapshot
  snapshot-OnCreate P name opts delay = OnGo-stop_if _ _ _ λ no_cpg. OnGo-stop_if _ _ _ λ named.
      OnGo-or_stop _ _ _ λ src e1.
        OnGo-bind _ _ λ expiration e2.
          OnGo-bind _ _ λ retention e3. OnGo-bind _ _ λ scheduled e4. OnGo-here _ tt

  -- A new volume is no copy, and it comes from the request that was populated.
  abbrev IsRegular : Opts → CreateRequest → CreateRequest → Type 0
  IsRegular opts request made =
      Concludes request made
      × ((has_key "virtualCopyOf" opts ≡ false)
          × ((has_key "cloneOf" opts ≡ false) × (has_any valid_snap_schedule_opts opts ≡ false)))

  OnCreate-map :
      (P Q : CreateRequest → Type 0) (answer : Answer)
      → ((r : CreateRequest) → P r → Q r)
      → OnCreate P answer
      → OnCreate Q answer
  OnCreate-map P Q (create_volume r) f h = f r h
  OnCreate-map P Q answer f h = tt

  create_regular-IsRegular :
      (name : String) (opts : Opts) (request : CreateRequest)
      → OnGo
          (OnCreate (IsRegular opts request))
          (create_regular configs managers default_backend timestamp name opts request)
  unfolding create_regular
  create_regular-IsRegular name opts request =
      OnGo-if (has_key "virtualCopyOf" opts) _ _
        (λ copy. snapshot-OnCreate _ name opts request.mount_conflict_delay)
        (λ no_copy.
          OnGo-if (has_key "cloneOf" opts) _ _ (λ clone. clone-OnCreate _ name opts)
            (λ no_clone. OnGo-stop_if _ _ _ λ no_schedule. record {
              at = λ answer e.
                  OnCreate-map (Concludes request) (IsRegular opts request) answer
                    (λ r c. (c, (no_copy, (no_clone, no_schedule))))
                    ((create_on_backend-Concludes request).at answer e);
            }))

  create_with-IsSound :
      (name backend : String) (contents : Contents)
      → IsBackend backend
      → OnGo
          (OnCreate (IsSound contents))
          (create_with configs managers default_backend timestamp name backend (opts_of contents))
  unfolding create_with
  create_with-IsSound name backend contents known =
      elim (Option-cases (lookup "importVol" (opts_of contents))) [
        | inr (existing_ref, e) ↦ rw (e, create_with) (OnGo-here _ tt)
        | inl e ↦
            rw (e, create_with)
              (elim (Option-cases (lookup "help" (opts_of contents))) [
                | inr (asked, e1) ↦ rw e1 (OnGo-here _ tt)
                | inl e1 ↦ rw e1 populated
              ])
      ]
    where
      sound :
          (request made : CreateRequest)
          → request.current_backend ≡ backend
          → is_zero request.vol_size ≡ false
          → IsRegular (opts_of contents) request made
          → IsSound contents made
      sound request made same_backend size (c, not_a_copy) = record {
        backend = subst IsBackend (sym same_backend ∙ ap (λ r. r.current_backend) c.same) known;
        size = ap (λ r. is_zero r.vol_size) (sym c.same) ∙ size;
        cpg = c.no_cpg;
        snap_cpg = c.no_snap_cpg;
        replication = c.replicates;
        not_a_copy = not_a_copy;
      }

      populated : OnGo (OnCreate (IsSound contents)) (
          populate configs managers default_backend timestamp name backend (opts_of contents)
          >>= create_regular configs managers default_backend timestamp name (opts_of contents))
      populated = OnGo-bind _ _ λ request e.
          let (same_backend, size) =
            (populate-Known name backend (opts_of contents)).at request e in
          record {
            at = λ answer e1.
                OnCreate-map (IsRegular (opts_of contents) request) (IsSound contents) answer
                  (λ made. sound request made same_backend size)
                  ((create_regular-IsRegular name (opts_of contents) request).at answer e1);
          }

  no_keys :
      (opts : Opts)
      → is_empty opts ≡ true
      → (has_key "virtualCopyOf" opts ≡ false)
        × ((has_key "cloneOf" opts ≡ false) × (has_any valid_snap_schedule_opts opts ≡ false))
  unfolding lookup
  no_keys [] e = (refl, (refl, refl))
  no_keys (o ∷ opts) e = cc

  create_block-IsSound :
      (contents : Contents)
      → OnGo
          (OnCreate (IsSound contents))
          (create_block configs managers default_backend timestamp contents)
  unfolding create_block create_with_opts
  create_block-IsSound contents = OnGo-bind _ _ λ u e.
      OnGo-if (is_empty (opts_of contents)) _ _
        (λ empty. record {
          at = λ answer e1.
              OnCreate-map
                (Concludes
                  (default_request configs managers default_backend timestamp contents.name))
                (IsSound contents) answer (λ made c. from_default made c empty)
                ((create_on_backend-Concludes _).at answer e1);
        })
        (λ some_opts. OnGo-bind _ _ λ v e2. OnGo-bind _ _ λ w e3. OnGo-bind _ _ λ backend e4.
          create_with-IsSound contents.name backend contents
            ((check_backend-IsBackend (given "backend" (opts_of contents))).at backend e4))
    where
      from_default :
          (made : CreateRequest)
          → Concludes
              (default_request configs managers default_backend timestamp contents.name)
              made
          → is_empty (opts_of contents) ≡ true
          → IsSound contents made
      from_default made c empty = record {
        backend = inl (ap (λ r. r.current_backend) (sym c.same));
        size = ap (λ r. is_zero r.vol_size) (sym c.same);
        cpg = c.no_cpg;
        snap_cpg = c.no_snap_cpg;
        replication = c.replicates;
        not_a_copy = no_keys (opts_of contents) empty;
      }

-- A create request that ends with a new volume asked of the orchestrator: the name was free and the
-- block driver is configured. The volume's backend is the default one, or one that is configured and
-- that the orchestrator has an entry for, be its initialisation running, ended or failed; its size is
-- not zero; no array group is given together with a replication group; the replication group passed
-- its checks on that backend; and no option of a copy or of a schedule was given.
pub volumedriver_create-IsSound :
    (configs : List (String × BackendConfig)) (managers : List String)
    (default_backend timestamp : String) (name_exists has_block : Bool) (contents : Contents)
    (request : CreateRequest)
    → volumedriver_create configs managers default_backend timestamp name_exists has_block contents
      ≡ go (create_volume request)
    → (name_exists ≡ false)
      × ((has_block ≡ true) × IsSound configs managers default_backend timestamp contents request)
unfolding volumedriver_create
volumedriver_create-IsSound configs managers default_backend timestamp name_exists has_block
      contents request =
    flow.at (create_volume request)
  where
    flow :
        OnGo
          (OnCreate (λ r.
            (name_exists ≡ false)
            × ((has_block ≡ true) × IsSound configs managers default_backend timestamp contents r)))
          (volumedriver_create configs managers default_backend timestamp name_exists has_block
            contents)
    flow = OnGo-stop_if _ _ _ λ is_free.
        OnGo-if (has_key "filePersona" (opts_of contents)) _ _ (λ file. OnGo-here _ tt)
          (λ block. OnGo-stop_if _ _ _ λ configured. record {
            at = λ answer e.
                OnCreate-map configs managers default_backend timestamp _ _ answer
                  (λ r sound. (is_free, (ground arith, sound)))
                  ((create_block-IsSound configs managers default_backend timestamp contents).at
                    answer e);
          })
