-- ===== src/Security/Roles/Hierarchy.antt =====
-- src/hokora/security/roles.py: an actor with a position cannot hand out a role at or above it.
use mathlib.Core.Path.{subst}
use hokora.Base.{
  ℕ, ◌<◌, ◌⊎◌, ◌≡◌, refl, sym, ◌∙◌, ap, Option, none, some, String, List, [], ◌∷◌, ◌++◌, arith, leb,
  inl, inr, Bool-cases, Option-cases, In, here, there, In-cons,
}
use hokora.Db.{Role, RoleAssignment, Tables}
use hokora.Db.Roles.{find_role, find_role_named, find_assignment}
use hokora.Security.Roles.{
  builtin_roles, is_builtin_name, is_above, insert_role, create_role, assign_row, assign_role,
}
use hokora.Security.Roles.Assigned.{already_assigned_keeps}

find_role-append :
    (wanted : ℕ) (roles : List Role) (x r : Role)
    → find_role wanted roles ≡ some r
    → find_role wanted (roles ++ x ∷ []) ≡ some r
unfolding find_role
find_role-append wanted [] x r h = absurd (cc)
find_role-append wanted (y ∷ roles) x r h = ground (arith, find_role-append wanted roles x r)

In-append_one {ℓ} :
    {A : Type ℓ} {a : A} (xs : List A) (x : A) → In a (xs ++ x ∷ []) → In a xs ⊎ (a ≡ x)
In-append_one [] x i = elim (In-cons i) [ inl e ↦ inr e | inr j ↦ elim j [ ] ]
In-append_one (y ∷ xs) x i = elim (In-cons i) [
  | inl e ↦ inl (subst (λ b. In b (y ∷ xs)) (sym e) here)
  | inr j ↦ elim (In-append_one xs x j) [ inl k ↦ inl (there k) | inr e ↦ inr e ]
]

insert_role_keeps :
    (t : Tables) (role : Role) (o : Option Role) (wanted : ℕ) (r : Role)
    → find_role wanted t.roles ≡ some r
    → find_role wanted (insert_role t role o).1.roles ≡ some r
insert_role_keeps t role none wanted r h = find_role-append wanted t.roles role r h
insert_role_keeps t role (some x) wanted r h = h

insert_role_assignments :
    (t : Tables) (role : Role) (o : Option Role)
    → (insert_role t role o).1.assignments ≡ t.assignments
insert_role_assignments t role none = refl
insert_role_assignments t role (some x) = refl

module _ (t : Tables) (id : ℕ) (name : String) (permissions position : ℕ) (actor : Option ℕ) where
  create_role_keeps :
      (wanted : ℕ) (r : Role)
      → find_role wanted t.roles ≡ some r
      → find_role wanted (create_role t id name permissions position actor).1.roles ≡ some r
  unfolding create_role
  create_role_keeps wanted r h = elim (Bool-cases (is_builtin_name name builtin_roles)) [
    | inl e ↦ rw e h
    | inr e ↦ elim (Bool-cases (is_above position actor)) [
      | inl a ↦ rw (e, a) h
      | inr a ↦ rw (e, a) (insert_role_keeps t _ (find_role_named name t.roles) wanted r h)
    ]
  ]

  create_role_assignments :
      (create_role t id name permissions position actor).1.assignments ≡ t.assignments
  unfolding create_role
  create_role_assignments = elim (Bool-cases (is_builtin_name name builtin_roles)) [
    | inl e ↦ rw e refl
    | inr e ↦ elim (Bool-cases (is_above position actor)) [
      | inl a ↦ rw (e, a) refl
      | inr a ↦ rw (e, a) (insert_role_assignments t _ (find_role_named name t.roles))
    ]
  ]

module _ (t : Tables) (role identity : ℕ) (channel by : Option ℕ) where
  assign_row_new :
      (row : RoleAssignment)
      → In row (assign_row t role identity channel by).1.assignments
      → In row t.assignments ⊎ (row.role_id ≡ role)
  unfolding assign_row
  assign_row_new row i = elim (Option-cases (find_assignment role identity channel t.assignments)) [
    | inl e ↦
        let i' : In row (
            t.assignments
            ++ (record {
              role_id = role;
              identity_hash = identity;
              channel_id = channel;
              assigned_by = by;
            })
              ∷ []) =
          rw e at i in
        elim (In-append_one t.assignments _ i') [
          | inl j ↦ inl j
          | inr f ↦ inr (ap (λ (r : RoleAssignment). r.role_id) f)
        ]
    | inr (found, e) ↦ inl (rw (e, already_assigned_keeps t channel found) at i)
  ]

  assign_row_roles : (assign_row t role identity channel by).1.roles ≡ t.roles
  unfolding assign_row
  assign_row_roles = elim (Option-cases (find_assignment role identity channel t.assignments)) [
    | inl e ↦ rw e refl
    | inr (found, e) ↦ rw (e, already_assigned_keeps t channel found) refl
  ]

  assign_role_roles :
      (actor : Option ℕ) → (assign_role t role identity channel by actor).1.roles ≡ t.roles
  unfolding assign_role
  assign_role_roles actor = elim (Option-cases (find_role role t.roles)) [
    | inl e ↦ rw e refl
    | inr (found, e) ↦ elim (Bool-cases (is_above found.position actor)) [
      | inl a ↦ rw (e, a) refl
      | inr a ↦ rw (e, a) assign_row_roles
    ]
  ]

  assign_role_new :
      (actor : ℕ) (row : RoleAssignment)
      → In row (assign_role t role identity channel by (some actor)).1.assignments
      → In row t.assignments
        ⊎ (r : Role) × (find_role row.role_id t.roles ≡ some r) × (r.position < actor)
  unfolding assign_role
  assign_role_new actor row i = elim (Option-cases (find_role role t.roles)) [
    | inl e ↦ inl (rw e at i)
    | inr (found, e) ↦ elim (Bool-cases (leb actor found.position)) [
      | inl a ↦ inl (rw (e, a) at i)
      | inr a ↦
          let i' : In row (assign_row t role identity channel by).1.assignments = rw (e, a) at i in
          elim (assign_row_new row i') [
            | inl j ↦ inl j
            | inr f ↦ inr (found, ap (λ (x : ℕ). find_role x t.roles) f ∙ e, ground arith)
          ]
    ]
  ]

-- What an actor with a position makes of the tables.
pub data Acts (actor : ℕ) : Tables → Tables → Type 0 where
  idle : {t : Tables} → Acts actor t t
  creates :
      {t u : Tables} (id : ℕ) (name : String) (permissions position : ℕ)
      → Acts actor t u
      → Acts actor t (create_role u id name permissions position (some actor)).1
  assigns :
      {t u : Tables} (role identity : ℕ) (channel by : Option ℕ)
      → Acts actor t u
      → Acts actor t (assign_role u role identity channel by (some actor)).1

-- Every assignment is one of the old ones, or of a role below the actor.
abbrev pub OnlyBelow : ℕ → Tables → Tables → Type 0
OnlyBelow actor t u =
    (row : RoleAssignment)
    → In row u.assignments
    → In row t.assignments
      ⊎ (r : Role) × (find_role row.role_id u.roles ≡ some r) × (r.position < actor)

-- Whatever roles an actor with a position creates and assigns, every assignment that was not
-- there before is of a role below that position.
pub Acts-OnlyBelow : (actor : ℕ) {t u : Tables} → Acts actor t u → OnlyBelow actor t u
Acts-OnlyBelow actor idle row i = inl i
Acts-OnlyBelow actor (creates {u = u} id name permissions position acts) row i =
    let i' : In row u.assignments =
      rw (create_role_assignments u id name permissions position (some actor)) at i in
    elim (Acts-OnlyBelow actor acts row i') [
      | inl j ↦ inl j
      | inr (r, f, l) ↦
          inr (r, create_role_keeps u id name permissions position (some actor) row.role_id r f, l)
    ]
Acts-OnlyBelow actor (assigns {u = u} role identity channel by acts) row i =
    let roles = assign_role_roles u role identity channel by (some actor) in
    let found = ap (find_role row.role_id) roles in
    elim (assign_role_new u role identity channel by actor row i) [
      | inl j ↦ elim (Acts-OnlyBelow actor acts row j) [
        | inl k ↦ inl k
        | inr (r, f, l) ↦ inr (r, found ∙ f, l)
      ]
      | inr (r, f, l) ↦ inr (r, found ∙ f, l)
    ]
