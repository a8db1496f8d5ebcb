-- ===== src/Manager/Remove/Guards.antt =====
-- What a removal does to the array and to etcd, and in which order.
use python_hpedockerplugin.Prelude.{
  String, ◌≡◌, ◌≢◌, refl, ◌∙◌, ap, true, false, Option, none, some, List, [], ◌∷◌, inl, inr, arith,
  lookup, lookup-remove_key, eq_refl, Option-cases,
}
use python_hpedockerplugin.Volume.{Volume}
use python_hpedockerplugin.Effect.{
  Call, etcd_delete, delete_volume, lock_volume, unlock_volume, etcd_read, Error, key_error, Result,
  ok, err, Env, Store, State, pure, ◌>>=◌, try_else, call, continue, start,
}
use python_hpedockerplugin.Effect.Keeps.{Keeps}
use python_hpedockerplugin.Effect.Reaches.{
  Made, OnOk, Reaches, Reaches-pure, Reaches-if, Reaches-bind, Reaches-try, Reaches-Keeps,
}
use python_hpedockerplugin.Etcd.{find_byname, get_vol_byname, delete_vol}
use python_hpedockerplugin.Locks.{synchronized}
use python_hpedockerplugin.Manager.Remove.Keeps.{remove_from_parent_of-Keeps}
use python_hpedockerplugin.Manager.{Response, success}
use python_hpedockerplugin.Manager.Clone.{is_snapshot}
use python_hpedockerplugin.Manager.Remove.{
  remove_volume, has_children, remove_found, remove_from_array, forget, ignore_key_error,
}

-- The calls that only lock and read.
abbrev pub OnlyReads : List Call → Type 0
OnlyReads [] = Unit
OnlyReads (lock_volume name ∷ h) = OnlyReads h
OnlyReads (unlock_volume name ∷ h) = OnlyReads h
OnlyReads (etcd_read key ∷ h) = OnlyReads h
OnlyReads (c ∷ h) = ⊥

-- A volume that has child snapshots is not removed: whatever the lock and etcd answer, nothing but
-- locking and reading is done, and etcd keeps what it holds.
pub remove_volume-OnlyReads :
    (env : Env) (volname : String) (vol : Volume) (store : Store)
    → find_byname volname store ≡ some vol
    → has_children vol ≡ true
    → is_snapshot vol ≡ false
    → OnlyReads (remove_volume env volname (start store)).1.calls
      × ((remove_volume env volname (start store)).1.etcd ≡ store)
unfolding remove_volume get_vol_byname synchronized call ◌>>=◌
remove_volume-OnlyReads env volname vol store found children base = ground arith

-- The deletion on the array comes first and is a call of the request.
abbrev DeletedOnArray : Volume → State → Type 0
DeletedOnArray vol s = Made (delete_volume vol.id (is_snapshot vol)) s.calls

-- etcd has no record of the volume, and the array was asked to delete it.
abbrev pub IsGone : Volume → State → Type 0
IsGone vol s = (lookup vol.id s.etcd ≡ none) × DeletedOnArray vol s

module _ (env : Env) (vol : Volume) where
  Keeps-Made : (c : Call) → Keeps (DeletedOnArray vol) (call env c)
  unfolding call
  Keeps-Made c = record {
    at = λ s made. elim (Option-cases (env.outcome c s.calls)) [
      | inl e ↦ rw (e, call) (inr made)
      | inr (x, e) ↦ rw (e, call) (inr made)
    ];
  }

  delete_volume-Made :
      Reaches
        (λ s. Unit)
        (λ u. DeletedOnArray vol)
        (call env (delete_volume vol.id (is_snapshot vol)))
  unfolding call
  delete_volume-Made = record {
    at = λ s q. elim (Option-cases (env.outcome (delete_volume vol.id (is_snapshot vol)) s.calls)) [
      | inl e ↦ rw (e, call) (inl refl)
      | inr (x, e) ↦ rw (e, call) tt
    ];
  }

  remove_from_array-Made :
      (volname : String) (parent : Option String)
      → Reaches (λ s. Unit) (λ u. DeletedOnArray vol) (remove_from_array env volname vol parent)
  unfolding remove_from_array
  remove_from_array-Made volname parent =
      Reaches-bind _ _ _ (Reaches-Keeps _ (record { at = λ s q. tt })) λ u.
        Reaches-bind _ _ _ delete_volume-Made
          λ v. Reaches-Keeps _ (remove_from_parent_of-Keeps env Keeps-Made volname parent)

  -- The record is gone, unless the etcd client raised.
  delete_vol-IsGone : Reaches (DeletedOnArray vol) (λ u. IsGone vol) (delete_vol env vol)
  unfolding delete_vol call
  delete_vol-IsGone = record {
    at = λ s made. elim (Option-cases (env.outcome (etcd_delete vol.id) s.calls)) [
      | inl e ↦
          rw (e, delete_vol)
            (ground (arith, lookup-remove_key vol.id vol.id s.etcd, eq_refl vol.id), inr made)
      | inr (x, e) ↦ rw (e, delete_vol) tt
    ];
  }

  -- An exception that is no KeyError leaves the handler.
  ignore_key_error_other :
      (P : Response → State → Type 0) (x : Error) (s : State)
      → ((key : String) → x ≢ key_error key)
      → OnOk P
          (continue (ignore_key_error env x s).0 (λ u. pure success) (ignore_key_error env x s).1)
  unfolding ignore_key_error ◌>>=◌
  ignore_key_error_other P (key_error key) s other = absurd (other key refl)
  ignore_key_error_other P e s other = tt

  module _
      (no_key_error : (h : List Call) (key : String)
        → env.outcome (etcd_delete vol.id) h ≢ some (key_error key)) where
    forget-IsGone :
        Reaches (DeletedOnArray vol) (λ r s. r ≡ success → IsGone vol s) (forget env vol)
    unfolding forget delete_vol call try_else ◌>>=◌
    forget-IsGone = record {
      at = λ s made. elim (Option-cases (env.outcome (etcd_delete vol.id) s.calls)) [
        | inl e ↦
            rw (e, forget)
              (λ _.
                (ground (arith, lookup-remove_key vol.id vol.id s.etcd, eq_refl vol.id), inr made))
        | inr (x, e) ↦
            rw (e, forget)
              (ignore_key_error_other _ x _
                (λ key same. no_key_error s.calls key (e ∙ ap some same)))
      ];
    }

    remove_found-IsGone :
        (volname : String) (parent : Option String)
        → Reaches
            (λ s. Unit)
            (λ r s. r ≡ success → IsGone vol s)
            (remove_found env volname vol parent)
    unfolding remove_found
    remove_found-IsGone volname parent =
        Reaches-if _ (has_children vol) _ _ (Reaches-pure _ _ (λ s q same. absurd (cc same))) (
          Reaches-try (λ u. DeletedOnArray vol) _ _ _ (remove_from_array-Made volname parent)
            (λ e. Reaches-pure _ _ (λ s q same. cc)) (λ u. forget-IsGone))

-- Where a removal that has read the volume's record answers with success, the array was asked to
-- delete the volume and etcd has no record of it any more, if the etcd client raises no KeyError.
pub remove_found_success :
    (env : Env) (volname : String) (vol : Volume) (parent : Option String) (s : State)
    → ((h : List Call) (key : String) → env.outcome (etcd_delete vol.id) h ≢ some (key_error key))
    → (remove_found env volname vol parent s).0 ≡ ok success
    → IsGone vol (remove_found env volname vol parent s).1
remove_found_success env volname vol parent s own answer =
    reached _ _ answer ((remove_found-IsGone env vol own volname parent).at s tt)
  where
    reached :
        (r : Result Response) (s : State)
        → r ≡ ok success
        → OnOk (λ r s. r ≡ success → IsGone vol s) (r, s)
        → IsGone vol s
    reached (ok success) s e h = h refl
    reached (ok r) s e h = h (cc e)
    reached (err x) s e h = cc
