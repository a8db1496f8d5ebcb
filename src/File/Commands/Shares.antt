-- ===== src/File/Commands/Shares.antt =====
-- What CreateShareCmd leaves on the array, where it returns and where it raises.
use python_hpedockerplugin.Prelude.{
  String, ◌≡◌, ◌≢◌, ◌⊎◌, refl, inl, inr, none, some, List, [], ◌∷◌, ◌++◌, lookup, insert,
  Option-cases, lookup-insert, eq_refl,
}
use python_hpedockerplugin.File.{
  creating, Share, Call, create_share, delete_share, delete_file_store, save_share, Result, ok, err,
  History, State, Env, pure, raise, gets, modify, ◌>>=◌, try_except, call,
}
use python_hpedockerplugin.File.Commands.{
  Config, share_now, or_none, unexecute_create_share, save_created, undo_created,
  execute_create_share,
}

abbrev Made : Call → History → Type 0
Made c [] = ⊥
Made c (x ∷ h) = (x ≡ c) ⊎ Made c h

-- The id that the array gives the share.
abbrev pub id_given : Env → Share → History → String
id_given env share h = env.text (create_share share.name) (create_share share.name ∷ h)

-- The end of the command, and the calls that it made.
abbrev pub HasEnded : Env → Share → State → Result (Unit {0}) × State → Type 0
HasEnded env share s (ok u, t) =
    (env.outcome (create_share share.name) s.calls ≡ none)
    × ((t.progress.id ≡ some (id_given env share s.calls))
        × (lookup share.name t.shares ≡ some (share_now share creating t)))
HasEnded env share s (err e, t) =
    ((env.outcome (create_share share.name) s.calls ≢ none)
      × (t.calls ≡ create_share share.name ∷ s.calls))
    ⊎ ((made : History) × ((t.calls ≡ made ++ s.calls)
          × Made (delete_share (id_given env share s.calls)) made))

at_key :
    (name : String) (share : Share) (shares : List (String × Share))
    → lookup name (insert name share shares) ≡ some share
at_key name share shares = rw (lookup-insert name name share shares, eq_refl name) refl

-- The creation of a share, whatever the array and etcd answer. Where it returns, the array has created
-- the share, and the record with the id that the array gave is saved. Where it raises, the array has
-- not created the share and nothing else was asked of it, or the deletion of the share with that id was
-- asked for.
pub execute_create_share-HasEnded :
    (env : Env) (config : Config) (share : Share) (s : State)
    → HasEnded env share s (execute_create_share env config share s)
unfolding execute_create_share save_created undo_created unexecute_create_share call try_except
    ◌>>=◌ gets modify raise pure
execute_create_share-HasEnded env config share s =
    let id = id_given env share s.calls in
    let created = create_share share.name ∷ s.calls in
    let now = record share {
      id = some id;
      fpg = s.progress.fpg;
      vfs = s.progress.vfs;
      vfs_ips = s.progress.vfs_ips;
      status = some creating;
    } in
    let saved = save_share now ∷ created in
    let removed = delete_share id ∷ saved in
    let store = delete_file_store (or_none s.progress.fpg) share.name in
    elim (Option-cases (env.outcome (create_share share.name) s.calls)) [
      | inr (x, e) ↦ rw (e, execute_create_share) (inl ((λ f. cc f), refl))
      | inl e ↦ elim (Option-cases (env.outcome (save_share now) created)) [
        | inl f ↦ rw (e, f, execute_create_share) (e, (refl, at_key share.name now s.shares))
        | inr (x, f) ↦ elim (Option-cases (env.outcome (delete_share id) saved)) [
          | inr (y, g) ↦
              rw (e, f, g, execute_create_share)
                (inr (
                  delete_share id ∷ save_share now ∷ create_share share.name ∷ [],
                  (refl, inl refl),
                ))
          | inl g ↦ elim (Option-cases (env.outcome store removed)) [
            | inr (y, k) ↦
                rw (e, f, g, k, execute_create_share)
                  (inr (
                    store ∷ delete_share id ∷ save_share now ∷ create_share share.name ∷ [],
                    (refl, inr (inl refl)),
                  ))
            | inl k ↦
                rw (e, f, g, k, execute_create_share)
                  (inr (
                    store ∷ delete_share id ∷ save_share now ∷ create_share share.name ∷ [],
                    (refl, inr (inl refl)),
                  ))
          ]
        ]
      ]
    ]
