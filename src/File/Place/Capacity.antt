-- ===== src/File/Place/Capacity.antt =====
-- The default groups on which file_manager.py places a share have room for it.
use python_hpedockerplugin.Prelude.{
  ℕ, ◌+◌, ◌*◌, ◌≤◌, String, ◌≡◌, refl, subst, Bool, true, false, some, List, leb→le,
}
use python_hpedockerplugin.File.{
  Share, FpgInfo, Call, get_fpg, get_quotas, Error, fpg_not_found, State, History, Env, ok, ask,
}
use python_hpedockerplugin.File.Returns.{
  Returns, Returns-pure, Returns-raise, Returns-bind, Returns-known, Returns-try, Returns-gets,
}
use python_hpedockerplugin.File.Commands.{Config}
use python_hpedockerplugin.File.Place.{sum, has_room, server_if, skip_missing, candidate}

ask-Answer :
    {A : Type 0} (env : Env) (c : Call) (f : History → A)
    → Returns (λ a s. (h : History) × (a ≡ f h)) (ask env c f)
unfolding ask
ask-Answer env c f = Returns-bind _ _ λ u. Returns-gets _ _ (λ s. (s.calls, refl))

module _ (env : Env) (config : Config) (share : Share) (fpg : String) where
  -- The group's quotas and the share fit into the capacity that the array told.
  pub record HasRoom (info : FpgInfo) : Type 0 where
    pub asked : History
    pub asked_quotas : History
    pub is_fpg : info.fpg ≡ fpg
    pub fits :
        sum (env.numbers (get_quotas fpg) asked_quotas) + share.size
        ≤ env.number (get_fpg fpg) asked * 1024

  server_if-HasRoom :
      (capacity : ℕ) (quotas : List ℕ) (h k : History)
      → capacity ≡ env.number (get_fpg fpg) h
      → quotas ≡ env.numbers (get_quotas fpg) k
      → (room : Bool) → has_room share.size capacity quotas ≡ room
      → Returns
          (λ o s. (info : FpgInfo) → o ≡ some info → HasRoom info)
          (server_if env config share fpg room)
  unfolding server_if
  server_if-HasRoom capacity quotas h k c q false e = Returns-pure _ (λ s info same. cc same)
  server_if-HasRoom capacity quotas h k c q true e = Returns-bind _ _ λ server.
      Returns-pure _ (λ s info same. record {
        asked = h;
        asked_quotas = k;
        is_fpg = cc same;
        fits =
            subst (λ n. sum (env.numbers (get_quotas fpg) k) + share.size ≤ n * 1024) c
              (subst (λ l. sum l + share.size ≤ capacity * 1024) q
                (leb→le (sum quotas + share.size) (capacity * 1024) e));
      })

  skip_missing-none :
      (e : Error)
      → Returns
          (λ o s. (info : FpgInfo) → o ≡ some info → HasRoom info)
          (skip_missing env config share e)
  unfolding skip_missing
  skip_missing-none fpg_not_found = Returns-pure _ (λ s info same. cc same)
  skip_missing-none e = Returns-raise _

  candidate-Roomy :
      Returns
        (λ o s. (info : FpgInfo) → o ≡ some info → HasRoom info)
        (candidate env config share fpg)
  unfolding candidate
  candidate-Roomy =
      Returns-try _ _
        (Returns-known (λ a. (h : History) × (a ≡ env.number (get_fpg fpg) h)) _ _
          (ask-Answer env _ _)
          λ capacity known.
            Returns-known (λ a. (h : History) × (a ≡ env.numbers (get_quotas fpg) h)) _ _
              (ask-Answer env _ _)
              λ quotas known_quotas.
                server_if-HasRoom capacity quotas known.0 known_quotas.0 known.1 known_quotas.1 _
                  refl)
        skip_missing-none

-- A default group that is chosen for a share has room for it: by what the array answered, the group's
-- quotas and the share's size are together at most its capacity.
pub candidate-HasRoom :
    (env : Env) (config : Config) (share : Share) (fpg : String) (s : State) (info : FpgInfo)
    → (candidate env config share fpg s).0 ≡ ok (some info)
    → HasRoom env config share fpg info
candidate-HasRoom env config share fpg s info found =
    (candidate-Roomy env config share fpg).at s (some info) found info refl
