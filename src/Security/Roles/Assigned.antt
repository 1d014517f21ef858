-- ===== src/Security/Roles/Assigned.antt =====
-- src/hokora/security/roles.py: no role is assigned twice to an identity in one scope.
use hokora.Base.{
  ℕ, ◌≡◌, refl, Bool, true, false, Option, none, some, List, [], ◌∷◌, ◌++◌, arith, inl, inr,
  Bool-cases, Option-cases,
}
use hokora.Db.{RoleAssignment, Tables}
use hokora.Db.Roles.{find_role, same_scope, is_same_assignment, find_assignment}
use hokora.Security.Roles.{
  is_above, already_assigned, assign_row, assign_role, delete_assignment, remove_role,
}

-- No later row has the role, identity and scope of a row.
abbrev pub IsDistinct : List RoleAssignment → Type 0
IsDistinct [] = Unit
IsDistinct (row ∷ rows) =
    (find_assignment row.role_id row.identity_hash row.channel_id rows ≡ none) × IsDistinct rows

same_scope_comm : (a b : Option ℕ) → same_scope a b ≡ same_scope b a
same_scope_comm none none = refl
same_scope_comm none (some b) = refl
same_scope_comm (some a) none = refl
same_scope_comm (some a) (some b) = ground arith

pub same_scope_trans :
    (a b c : Option ℕ) → same_scope a b ≡ true → same_scope c b ≡ true → same_scope a c ≡ true
same_scope_trans none none none h k = refl
same_scope_trans none none (some c) h k = k
same_scope_trans none (some b) c h k = absurd (cc)
same_scope_trans (some a) none c h k = absurd (cc)
same_scope_trans (some a) (some b) none h k = k
same_scope_trans (some a) (some b) (some c) h k = ground arith

is_same_comm :
    (a b : RoleAssignment)
    → is_same_assignment a.role_id a.identity_hash a.channel_id b
      ≡ is_same_assignment b.role_id b.identity_hash b.channel_id a
is_same_comm a b = ground (arith, same_scope_comm a.channel_id b.channel_id)

find_assignment-append :
    (role identity : ℕ) (channel : Option ℕ) (rows : List RoleAssignment) (row : RoleAssignment)
    → find_assignment role identity channel rows ≡ none
    → is_same_assignment role identity channel row ≡ false
    → find_assignment role identity channel (rows ++ row ∷ []) ≡ none
unfolding find_assignment
find_assignment-append role identity channel [] row h k = ground arith
find_assignment-append role identity channel (x ∷ rows) row h k =
    ground (arith, find_assignment-append role identity channel rows row)

first_differs :
    (x row : RoleAssignment) (rows : List RoleAssignment)
    → find_assignment row.role_id row.identity_hash row.channel_id (x ∷ rows) ≡ none
    → (is_same_assignment x.role_id x.identity_hash x.channel_id row ≡ false)
      × (find_assignment row.role_id row.identity_hash row.channel_id rows ≡ none)
unfolding find_assignment
first_differs x row rows h = (ground (arith, is_same_comm x row), ground arith)

append-IsDistinct :
    (rows : List RoleAssignment) (row : RoleAssignment)
    → IsDistinct rows
    → find_assignment row.role_id row.identity_hash row.channel_id rows ≡ none
    → IsDistinct (rows ++ row ∷ [])
append-IsDistinct [] row d h = (unfold find_assignment in refl, tt)
append-IsDistinct (x ∷ rows) row d h =
    let f = first_differs x row rows h in
    (
      find_assignment-append x.role_id x.identity_hash x.channel_id rows row d.0 f.0,
      append-IsDistinct rows row d.1 f.1,
    )

pub already_assigned_keeps :
    (t : Tables) (channel : Option ℕ) (existing : RoleAssignment)
    → (already_assigned t channel existing).1 ≡ t
already_assigned_keeps t none existing = refl
already_assigned_keeps t (some c) existing = refl

assign_row-IsDistinct :
    (t : Tables) (role identity : ℕ) (channel by : Option ℕ)
    → IsDistinct t.assignments
    → IsDistinct (assign_row t role identity channel by).1.assignments
unfolding assign_row
assign_row-IsDistinct t role identity channel by d =
    elim (Option-cases (find_assignment role identity channel t.assignments)) [
      | inl e ↦
          let row : RoleAssignment = record {
            role_id = role;
            identity_hash = identity;
            channel_id = channel;
            assigned_by = by;
          } in
          rw e (append-IsDistinct t.assignments row d e)
      | inr (found, e) ↦ rw (e, already_assigned_keeps t channel found) d
    ]

assign_role-IsDistinct :
    (t : Tables) (role identity : ℕ) (channel by actor : Option ℕ)
    → IsDistinct t.assignments
    → IsDistinct (assign_role t role identity channel by actor).1.assignments
unfolding assign_role
assign_role-IsDistinct t role identity channel by actor d =
    elim (Option-cases (find_role role t.roles)) [
      | inl e ↦ rw e d
      | inr (found, e) ↦ elim (Bool-cases (is_above found.position actor)) [
        | inl a ↦ rw (e, a) d
        | inr a ↦ rw (e, a) (assign_row-IsDistinct t role identity channel by d)
      ]
    ]

module _ (role identity : ℕ) (channel : Option ℕ) where
  find-delete :
      (r i : ℕ) (c : Option ℕ) (rows : List RoleAssignment)
      → find_assignment r i c rows ≡ none
      → find_assignment r i c (delete_assignment role identity channel rows) ≡ none
  unfolding find_assignment delete_assignment
  find-delete r i c [] h = refl
  find-delete r i c (x ∷ rows) h = ground (arith, find-delete r i c rows)

  delete-IsDistinct :
      (rows : List RoleAssignment)
      → IsDistinct rows
      → IsDistinct (delete_assignment role identity channel rows)
  unfolding delete_assignment
  delete-IsDistinct [] d = tt
  delete-IsDistinct (x ∷ rows) d = elim (Bool-cases (is_same_assignment role identity channel x)) [
    | inl e ↦ rw e d.1
    | inr e ↦
        rw e
          (find-delete x.role_id x.identity_hash x.channel_id rows d.0, delete-IsDistinct rows d.1)
  ]

  -- A row like the deleted one has its columns.
  same_columns :
      (x : RoleAssignment) (rows : List RoleAssignment)
      → is_same_assignment role identity channel x ≡ true
      → find_assignment x.role_id x.identity_hash x.channel_id rows ≡ none
      → find_assignment role identity channel rows ≡ none
  unfolding find_assignment
  same_columns x [] e h = refl
  same_columns x (y ∷ rows) e h = ground (
    arith,
    same_columns x rows e,
    same_scope_trans x.channel_id y.channel_id channel,
    same_scope_comm channel y.channel_id,
    same_scope_comm channel x.channel_id,
    same_scope_comm y.channel_id channel,
    same_scope_trans x.channel_id channel y.channel_id,
  )

  pub find-delete_self :
      (rows : List RoleAssignment)
      → IsDistinct rows
      → find_assignment role identity channel (delete_assignment role identity channel rows) ≡ none
  unfolding find_assignment delete_assignment
  find-delete_self [] d = refl
  find-delete_self (x ∷ rows) d = elim (Bool-cases (is_same_assignment role identity channel x)) [
    | inl e ↦ rw e (same_columns x rows e d.0)
    | inr e ↦ rw (e, e) (find-delete_self rows d.1)
  ]

remove_role-IsDistinct :
    (t : Tables) (role identity : ℕ) (channel : Option ℕ) (m r : Bool)
    → IsDistinct t.assignments
    → IsDistinct (remove_role t role identity channel m r).1.assignments
unfolding remove_role
remove_role-IsDistinct t role identity channel m r d =
    elim (Option-cases (find_assignment role identity channel t.assignments)) [
      | inl e ↦ rw e d
      | inr (found, e) ↦ rw e (delete-IsDistinct role identity channel t.assignments d)
    ]

-- Tables that assignments and removals lead to.
pub data Managed : Tables → Tables → Type 0 where
  unmanaged : {t : Tables} → Managed t t
  assigned :
      {t u : Tables} (role identity : ℕ) (channel by actor : Option ℕ)
      → Managed t u
      → Managed t (assign_role u role identity channel by actor).1
  removed :
      {t u : Tables} (role identity : ℕ) (channel : Option ℕ) (has_manager can_distribute : Bool)
      → Managed t u
      → Managed t (remove_role u role identity channel has_manager can_distribute).1

-- However roles are assigned and removed, no identity ever has a role twice in one scope, if none
-- had at first.
pub Managed-IsDistinct :
    {t u : Tables} → Managed t u → IsDistinct t.assignments → IsDistinct u.assignments
Managed-IsDistinct unmanaged d = d
Managed-IsDistinct (assigned {u = u} role identity channel by actor m) d =
    assign_role-IsDistinct u role identity channel by actor (Managed-IsDistinct m d)
Managed-IsDistinct (removed {u = u} role identity channel s r m) d =
    remove_role-IsDistinct u role identity channel s r (Managed-IsDistinct m d)
