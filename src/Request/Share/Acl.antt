-- ===== src/Request/Share/Acl.antt =====
-- Which access control lists are accepted, described without sets.
use python_hpedockerplugin.Prelude.{
  ℕ, ◌≤◌, ◌≡◌, ◌↔◌, refl, sym, subst, ap, ◌∙◌, true, false, List, [], ◌∷◌, ◌++◌, length, ◌==◌,
  is_empty, All, arith, Bool-cases, inl, inr,
}
use python_hpedockerplugin.Request.{valid, and_then, check}
use python_hpedockerplugin.Request.Share.{
  has, distinct, not_in, valid_type, valid_flag, valid_perm, is_valid_type, check_fields, split_at,
  check_valid_fs_mode_string,
}

-- No character stands twice.
abbrev pub NoDuplicates : List ℕ → Type 0
NoDuplicates [] = Unit
NoDuplicates (c ∷ cs) = (has c cs ≡ false) × NoDuplicates cs

length-distinct : (cs : List ℕ) → length (distinct cs) ≤ length cs
unfolding distinct
length-distinct [] = omega arith
length-distinct (c ∷ cs) = ground (arith, length-distinct cs)

has-distinct : (k : ℕ) (cs : List ℕ) → has k (distinct cs) ≡ has k cs
unfolding distinct
has-distinct k [] = refl
has-distinct k (c ∷ cs) = ground (arith, has-distinct k cs, has-distinct c cs)

distinct-NoDuplicates : (cs : List ℕ) → length cs ≤ length (distinct cs) → NoDuplicates cs
unfolding distinct
distinct-NoDuplicates [] h = tt
distinct-NoDuplicates (c ∷ cs) h = (
  ground (arith, has-distinct c cs, length-distinct cs),
  distinct-NoDuplicates cs (ground (arith, length-distinct cs)),
)

NoDuplicates-distinct : (cs : List ℕ) → NoDuplicates cs → length cs ≤ length (distinct cs)
unfolding distinct
NoDuplicates-distinct [] h = omega arith
NoDuplicates-distinct (c ∷ cs) h =
    ground (arith, has-distinct c cs, h.0, NoDuplicates-distinct cs h.1)

-- Every character is one of those allowed.
abbrev pub IsMadeOf : List ℕ → List ℕ → Type 0
IsMadeOf allowed cs = All (λ c. has c allowed ≡ true) cs

has-IsMadeOf :
    (allowed : List ℕ) (c : ℕ) (cs : List ℕ)
    → IsMadeOf allowed cs
    → has c cs ≡ true
    → has c allowed ≡ true
has-IsMadeOf allowed c [] all found = cc
has-IsMadeOf allowed c (d ∷ ds) all found = elim (Bool-cases (d == c)) [
  | inl e ↦ subst (λ k. has k allowed ≡ true) (ground arith) all.0
  | inr e ↦ has-IsMadeOf allowed c ds all.1 (ground arith)
]

not_in-IsMadeOf : (allowed cs : List ℕ) → is_empty (not_in cs allowed) ≡ true → IsMadeOf allowed cs
unfolding not_in
not_in-IsMadeOf allowed [] h = tt
not_in-IsMadeOf allowed (c ∷ cs) h = (ground arith, not_in-IsMadeOf allowed cs (ground arith))

IsMadeOf-not_in : (allowed cs : List ℕ) → IsMadeOf allowed cs → is_empty (not_in cs allowed) ≡ true
unfolding not_in
IsMadeOf-not_in allowed [] h = refl
IsMadeOf-not_in allowed (c ∷ cs) h = ground (arith, h.0, IsMadeOf-not_in allowed cs h.1)

distinct-again :
    (c : ℕ) (cs : List ℕ) → has c (distinct cs) ≡ true → distinct (c ∷ cs) ≡ distinct cs
unfolding distinct
distinct-again c cs e = rw e refl

distinct-new :
    (c : ℕ) (cs : List ℕ) → has c (distinct cs) ≡ false → distinct (c ∷ cs) ≡ c ∷ distinct cs
unfolding distinct
distinct-new c cs e = rw e refl

of_distinct : (allowed cs : List ℕ) → IsMadeOf allowed (distinct cs) → IsMadeOf allowed cs
of_distinct allowed [] h = tt
of_distinct allowed (c ∷ cs) h = elim (Bool-cases (has c (distinct cs))) [
  | inl e ↦
      let k = subst (IsMadeOf allowed) (distinct-again c cs e) h in
      (has-IsMadeOf allowed c (distinct cs) k e, of_distinct allowed cs k)
  | inr e ↦
      let k = subst (IsMadeOf allowed) (distinct-new c cs e) h in (k.0, of_distinct allowed cs k.1)
]

to_distinct : (allowed cs : List ℕ) → IsMadeOf allowed cs → IsMadeOf allowed (distinct cs)
unfolding distinct
to_distinct allowed [] h = tt
to_distinct allowed (c ∷ cs) h = elim (Bool-cases (has c (distinct cs))) [
  | inl e ↦ subst (IsMadeOf allowed) (sym (distinct-again c cs e)) (to_distinct allowed cs h.1)
  | inr e ↦ subst (IsMadeOf allowed) (sym (distinct-new c cs e)) (h.0, to_distinct allowed cs h.1)
]

split_at-last : (sep : ℕ) (f : List ℕ) → has sep f ≡ false → split_at sep f ≡ f ∷ []
unfolding split_at
split_at-last sep [] h = refl
split_at-last sep (c ∷ cs) h = ground (arith, split_at-last sep cs)

split_at-first :
    (sep : ℕ) (f rest : List ℕ)
    → has sep f ≡ false
    → split_at sep (f ++ sep ∷ rest) ≡ f ∷ split_at sep rest
unfolding split_at
split_at-first sep [] rest h = ground arith
split_at-first sep (c ∷ cs) rest h = ground (arith, split_at-first sep cs rest)

-- An entry of a list, described without sets.
pub record IsEntry (vtype flags perms : List ℕ) : Type 0 where
  pub kind : (c : ℕ) × ((vtype ≡ c ∷ []) × (has c valid_type ≡ true))
  pub flags_differ : NoDuplicates flags
  pub flags_known : IsMadeOf valid_flag flags
  pub perms_differ : NoDuplicates perms
  pub perms_known : IsMadeOf valid_perm perms

one_letter :
    (vtype : List ℕ)
    → is_valid_type vtype ≡ true
    → (c : ℕ) × ((vtype ≡ c ∷ []) × (has c valid_type ≡ true))
unfolding is_valid_type
one_letter [] h = cc
one_letter (c ∷ []) h = (c, (refl, h))
one_letter (c ∷ d ∷ cs) h = cc

check_fields-IsEntry :
    (vtype flags perms : List ℕ)
    → check_fields (vtype ∷ flags ∷ perms ∷ []) ≡ valid tt
    → IsEntry vtype flags perms
unfolding check_fields and_then check
check_fields-IsEntry vtype flags perms h = record {
  kind = one_letter vtype (ground arith);
  flags_differ = distinct-NoDuplicates flags (ground arith);
  flags_known =
      of_distinct valid_flag flags (not_in-IsMadeOf valid_flag (distinct flags) (ground arith));
  perms_differ = distinct-NoDuplicates perms (ground arith);
  perms_known =
      of_distinct valid_perm perms (not_in-IsMadeOf valid_perm (distinct perms) (ground arith));
}

IsEntry-check_fields :
    (vtype flags perms : List ℕ)
    → IsEntry vtype flags perms
    → check_fields (vtype ∷ flags ∷ perms ∷ []) ≡ valid tt
unfolding check_fields and_then check is_valid_type
IsEntry-check_fields vtype flags perms entry = ground (
  arith,
  entry.kind.1.0,
  entry.kind.1.1,
  NoDuplicates-distinct flags entry.flags_differ,
  NoDuplicates-distinct perms entry.perms_differ,
  IsMadeOf-not_in valid_flag (distinct flags) (to_distinct valid_flag flags entry.flags_known),
  IsMadeOf-not_in valid_perm (distinct perms) (to_distinct valid_perm perms entry.perms_known),
)

fields :
    (vtype flags perms : List ℕ)
    → has b':' vtype ≡ false
    → has b':' flags ≡ false
    → has b':' perms ≡ false
    → check_valid_fs_mode_string (vtype ++ b':' ∷ (flags ++ b':' ∷ perms))
      ≡ check_fields (vtype ∷ flags ∷ perms ∷ [])
unfolding check_valid_fs_mode_string
fields vtype flags perms t f p = ap check_fields (
    split_at-first b':' vtype (flags ++ b':' ∷ perms) t
    ∙ ap (λ rest. vtype ∷ rest)
        (split_at-first b':' flags perms f
          ∙ ap (λ rest. flags ∷ rest) (split_at-last b':' perms p)))

-- Three fields without colons, put together with colons, are accepted as an entry of an access control
-- list exactly where the first is one letter of the types, the second has no letter twice and only
-- letters of the flags, and the third has no letter twice and only letters of the permissions.
pub check_valid_fs_mode_string_iff :
    (vtype flags perms : List ℕ)
    → has b':' vtype ≡ false
    → has b':' flags ≡ false
    → has b':' perms ≡ false
    → (check_valid_fs_mode_string (vtype ++ b':' ∷ (flags ++ b':' ∷ perms)) ≡ valid tt)
      ↔ IsEntry vtype flags perms
check_valid_fs_mode_string_iff vtype flags perms t f p = (
  λ h. check_fields-IsEntry vtype flags perms (sym (fields vtype flags perms t f p) ∙ h),
  λ entry. fields vtype flags perms t f p ∙ IsEntry-check_fields vtype flags perms entry,
)
