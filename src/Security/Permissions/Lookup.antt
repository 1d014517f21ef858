-- ===== src/Security/Permissions/Lookup.antt =====
-- The role queries that src/hokora/security/permissions.py makes: which roles the join returns, and
-- what the batch of overrides holds.
use mathlib.Core.Path.{subst}
use hokora.Base.{
  ℕ, ◌⊎◌, ◌≡◌, refl, sym, ap, Bool, true, Option, none, some, List, [], ◌∷◌, arith, inl, inr,
  Bool-cases, In, here, there, In-cons,
}
use hokora.Base.Keys.{number_key}
use hokora.Dict.{Dict, lookup, insert}
use hokora.Dict.Laws.{lookup-insert}
use hokora.Db.{Role, RoleAssignment, ChannelOverride}
use hokora.Db.Roles.{
  find_role, counts, join_role, roles_of, get_channel_overrides, is_among, by_role,
  get_all_channel_overrides,
}

-- Why a role is among the roles of an identity: an assignment that counts names it.
pub record Because (roles : List Role) (identity : ℕ) (channel : Option ℕ) (strict : Bool)
    (rows : List RoleAssignment) (role : Role) : Type 0 where
  pub row : RoleAssignment
  pub stands : In row rows
  pub does_count : counts identity channel strict row ≡ true
  pub is_role : find_role row.role_id roles ≡ some role

In-join_role :
    (o : Option Role) (rest : List Role) (r : Role)
    → In r (join_role o rest)
    → (o ≡ some r) ⊎ In r rest
In-join_role none rest r i = inr i
In-join_role (some role) rest r i = elim (In-cons i) [
  | inl e ↦ inl (ap some (sym e))
  | inr j ↦ inr j
]

join_role-In_rest :
    (o : Option Role) {rest : List Role} {r : Role} → In r rest → In r (join_role o rest)
join_role-In_rest none i = i
join_role-In_rest (some role) i = there i

join_role-In :
    (o : Option Role) (rest : List Role) {r : Role} → o ≡ some r → In r (join_role o rest)
join_role-In o rest {r} e = subst (λ o. In r (join_role o rest)) (sym e) here

module _ (roles : List Role) (identity : ℕ) (channel : Option ℕ) (strict : Bool) where
  later_row :
      (row : RoleAssignment) {rows : List RoleAssignment} {r : Role}
      → Because roles identity channel strict rows r
      → Because roles identity channel strict (row ∷ rows) r
  later_row row b = record {
    row = b.row;
    stands = there b.stands;
    does_count = b.does_count;
    is_role = b.is_role;
  }

  pub roles_of-Because :
      (rows : List RoleAssignment) (r : Role)
      → In r (roles_of roles identity channel strict rows)
      → Because roles identity channel strict rows r
  unfolding roles_of
  roles_of-Because [] r i = elim i [ ]
  roles_of-Because (row ∷ rows) r i =
      let go = roles_of-Because rows r in
      elim (Bool-cases (counts identity channel strict row)) [
        | inl e ↦
            let i' : In r (
                join_role (find_role row.role_id roles)
                  (roles_of roles identity channel strict rows)) =
              rw e at i in
            elim (In-join_role _ _ r i') [
              | inl f ↦ record { row = row; stands = here; does_count = e; is_role = f }
              | inr j ↦ later_row row (go j)
            ]
        | inr e ↦
            let i' : In r (roles_of roles identity channel strict rows) = rw e at i in
            later_row row (go i')
      ]

  pub roles_of-In :
      (rows : List RoleAssignment) (r : Role) (row : RoleAssignment)
      → In row rows
      → counts identity channel strict row ≡ true
      → find_role row.role_id roles ≡ some r
      → In r (roles_of roles identity channel strict rows)
  unfolding roles_of
  roles_of-In [] r row i c f = elim i [ ]
  roles_of-In (first ∷ rows) r row i c f = elim (In-cons i) [
    | inl e ↦
        let c' : counts identity channel strict first ≡ true =
          subst (λ (x : RoleAssignment). counts identity channel strict x ≡ true) e c in
        let f' : find_role first.role_id roles ≡ some r =
          subst (λ (x : RoleAssignment). find_role x.role_id roles ≡ some r) e f in
        rw c' (join_role-In (find_role first.role_id roles) _ f')
    | inr j ↦
        let rest = roles_of-In rows r row j c f in
        elim (Bool-cases (counts identity channel strict first)) [
          | inl e ↦ rw e (join_role-In_rest (find_role first.role_id roles) rest)
          | inr e ↦ rw e rest
        ]
  ]

-- The unique index on the overrides of a channel and a role.
abbrev pub IsIndexed : List ChannelOverride → Type 0
IsIndexed [] = Unit
IsIndexed (row ∷ rows) =
    (get_channel_overrides row.channel_id row.role_id rows ≡ none) × IsIndexed rows

module _ (channel : ℕ) (ids : List ℕ) (role : ℕ) where
  by_role_skips :
      (rows : List ChannelOverride) (found : Dict ℕ ChannelOverride)
      → get_channel_overrides channel role rows ≡ none
      → lookup role (by_role channel ids rows found) ≡ lookup role found
  unfolding by_role get_channel_overrides
  by_role_skips [] found h = refl
  by_role_skips (row ∷ rows) found h = ground (
    arith,
    by_role_skips rows found,
    by_role_skips rows (insert row.role_id row found),
    lookup-insert row.role_id role row found,
  )

  by_role_finds :
      (rows : List ChannelOverride) (found : Dict ℕ ChannelOverride)
      → IsIndexed rows
      → is_among role ids ≡ true
      → lookup role found ≡ none
      → lookup role (by_role channel ids rows found) ≡ get_channel_overrides channel role rows
  unfolding by_role get_channel_overrides
  by_role_finds [] found u a h = h
  by_role_finds (row ∷ rows) found u a h = ground (
    arith,
    u.0,
    by_role_finds rows found u.1 a,
    by_role_finds rows (insert row.role_id row found) u.1 a,
    by_role_skips rows (insert row.role_id row found),
    lookup-insert row.role_id role row found,
  )

-- The batch holds for each of its roles what the single query returns.
pub lookup-get_all_channel_overrides :
    (channel : ℕ) (ids : List ℕ) (role : ℕ) (rows : List ChannelOverride)
    → IsIndexed rows
    → is_among role ids ≡ true
    → lookup role (get_all_channel_overrides channel ids rows)
      ≡ get_channel_overrides channel role rows
unfolding get_all_channel_overrides lookup
lookup-get_all_channel_overrides channel [] role rows u a = absurd (cc)
lookup-get_all_channel_overrides channel (x ∷ ids) role rows u a =
    by_role_finds channel (x ∷ ids) role rows [] u a refl
