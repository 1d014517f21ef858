-- ===== src/Security/Permissions/Order.antt =====
-- src/hokora/security/permissions.py: the mask does not depend on the order of the rows, nor on how
-- often a role was assigned.
use hokora.Base.{
  ℕ, ◌≡◌, refl, sym, ◌∙◌, ap, Bool, true, false, Option, some, String, List, [], ◌∷◌, arith, ◌==◌,
  inl, inr, Bool-cases, In, here, there, In-cons,
}
use hokora.Base.Keys.{◌≟◌, number_key, text_key}
use hokora.Base.Bits.{bit, bit_ext}
use hokora.Dict.{Dict, lookup}
use hokora.Db.{
  AccessMode, public, write_restricted, private, Channel, Role, RoleAssignment, ChannelOverride,
  Tables,
}
use hokora.Db.Roles.{roles_of, get_identity_roles, is_among, by_role, get_all_channel_overrides}
use hokora.Security.Permissions.{
  role_channel_owner, allowed_by, denied_by, has_named, is_read_only, role_ids,
  get_effective_permissions,
}
use hokora.Security.Permissions.Lookup.{roles_of-Because, roles_of-In}
use hokora.Security.Permissions.Meaning.{some_role, may, get_effective_permissions_bits}

-- Two lists have the same members.
abbrev pub SameMembers : {A : Type 0} → List A → List A → Type 0
SameMembers {A} xs ys = (a : A) → (In a xs → In a ys) × (In a ys → In a xs)

Bool_ext : (a b : Bool) → (a ≡ true → b ≡ true) → (b ≡ true → a ≡ true) → a ≡ b
Bool_ext true b f g = sym (f refl)
Bool_ext false true f g = g refl
Bool_ext false false f g = refl

pub find_some :
    (test : Role → Bool) (roles : List Role)
    → some_role test roles ≡ true
    → (r : Role) × In r roles × (test r ≡ true)
unfolding some_role
find_some test [] h = absurd (cc)
find_some test (role ∷ roles) h = elim (Bool-cases (test role)) [
  | inl e ↦ (role, here, e)
  | inr e ↦ let rest = find_some test roles (ground (arith, h, e)) in (rest.0, there rest.1, rest.2)
]

pub some_role-In :
    (test : Role → Bool) (roles : List Role) (r : Role)
    → In r roles
    → test r ≡ true
    → some_role test roles ≡ true
unfolding some_role
some_role-In test [] r i h = elim i [ ]
some_role-In test (role ∷ roles) r i h = elim (In-cons i) [
  | inl e ↦ let same : test role ≡ true = ap test (sym e) ∙ h in rw same refl
  | inr j ↦ ground (arith, some_role-In test roles r j h)
]

some_role-ext :
    (test : Role → Bool) (xs ys : List Role)
    → SameMembers xs ys
    → some_role test xs ≡ some_role test ys
some_role-ext test xs ys same =
    Bool_ext _ _
      (λ h. let s = find_some test xs h in some_role-In test ys s.0 ((same s.0).0 s.1) s.2)
      (λ h. let s = find_some test ys h in some_role-In test xs s.0 ((same s.0).1 s.1) s.2)

has_named-some_role :
    (name : String) (roles : List Role)
    → has_named name roles ≡ some_role (λ r. r.name ≟ name) roles
unfolding has_named some_role
has_named-some_role name [] = refl
has_named-some_role name (role ∷ roles) = rw (has_named-some_role name roles) refl

pub is_among-role_ids :
    (x : ℕ) (roles : List Role) → is_among x (role_ids roles) ≡ some_role (λ r. r.id == x) roles
unfolding some_role
is_among-role_ids x [] = refl
is_among-role_ids x (role ∷ roles) = rw (is_among-role_ids x roles) refl

is_read_only-ext :
    (mode : AccessMode) (xs ys : List Role)
    → SameMembers xs ys
    → is_read_only mode xs ≡ is_read_only mode ys
is_read_only-ext public xs ys same = refl
is_read_only-ext private xs ys same = refl
is_read_only-ext write_restricted [] [] same = refl
is_read_only-ext write_restricted [] (y ∷ ys) same = elim ((same y).1 here) [ ]
is_read_only-ext write_restricted (x ∷ xs) [] same = elim ((same x).0 here) [ ]
is_read_only-ext write_restricted (x ∷ xs) (y ∷ ys) same = refl

by_role-ext :
    (channel : ℕ) (ids ids' : List ℕ) (rows : List ChannelOverride) (found : Dict ℕ ChannelOverride)
    → ((x : ℕ) → is_among x ids ≡ is_among x ids')
    → by_role channel ids rows found ≡ by_role channel ids' rows found
unfolding by_role
by_role-ext channel ids ids' [] found h = refl
by_role-ext channel ids ids' (row ∷ rows) found h =
    rw (h row.role_id) (by_role-ext channel ids ids' rows _ h)

by_role_none :
    (channel : ℕ) (rows : List ChannelOverride) (found : Dict ℕ ChannelOverride)
    → by_role channel [] rows found ≡ found
unfolding by_role
by_role_none channel [] found = refl
by_role_none channel (row ∷ rows) found = ground (arith, by_role_none channel rows found)

-- The early return for no roles changes nothing.
pub get_all_channel_overrides_lem :
    (channel : ℕ) (ids : List ℕ) (rows : List ChannelOverride)
    → get_all_channel_overrides channel ids rows ≡ by_role channel ids rows []
unfolding get_all_channel_overrides
get_all_channel_overrides_lem channel [] rows = sym (by_role_none channel rows [])
get_all_channel_overrides_lem channel (x ∷ ids) rows = refl

overrides-ext :
    (channel : ℕ) (xs ys : List Role) (rows : List ChannelOverride)
    → SameMembers xs ys
    → get_all_channel_overrides channel (role_ids xs) rows
      ≡ get_all_channel_overrides channel (role_ids ys) rows
overrides-ext channel xs ys rows same =
    get_all_channel_overrides_lem channel (role_ids xs) rows
    ∙ by_role-ext channel (role_ids xs) (role_ids ys) rows [] (λ x.
      is_among-role_ids x xs
      ∙ some_role-ext (λ r. r.id == x) xs ys same
      ∙ sym (is_among-role_ids x ys))
    ∙ sym (get_all_channel_overrides_lem channel (role_ids ys) rows)

-- The tables with other assignments.
abbrev pub with_assignments : Tables → List RoleAssignment → Tables
with_assignments t rows = record t { assignments = rows }

roles-SameMembers :
    (t : Tables) (identity : ℕ) (channel : Option ℕ) (strict : Bool)
    (rows rows' : List RoleAssignment)
    → SameMembers rows rows'
    → SameMembers
        (roles_of t.roles identity channel strict rows)
        (roles_of t.roles identity channel strict rows')
roles-SameMembers t identity channel strict rows rows' same r = (
  λ i.
      let b = roles_of-Because t.roles identity channel strict rows r i in
      roles_of-In t.roles identity channel strict rows' r b.row ((same b.row).0 b.stands)
        b.does_count b.is_role,
  λ i.
      let b = roles_of-Because t.roles identity channel strict rows' r i in
      roles_of-In t.roles identity channel strict rows r b.row ((same b.row).1 b.stands)
        b.does_count b.is_role,
)

may-ext :
    (node_owner : ℕ) (t : Tables) (rows : List RoleAssignment) (identity : ℕ) (channel : Channel)
    (i : ℕ)
    → SameMembers t.assignments rows
    → may node_owner t identity channel i
      ≡ may node_owner (with_assignments t rows) identity channel i
unfolding may get_identity_roles
may-ext node_owner t rows identity channel i same =
    let xs = roles_of t.roles identity (some channel.id) false t.assignments in
    let ys = roles_of t.roles identity (some channel.id) false rows in
    let members : SameMembers xs ys =
      roles-SameMembers t identity (some channel.id) false t.assignments rows same in
    let named : has_named role_channel_owner xs ≡ has_named role_channel_owner ys =
      has_named-some_role _ xs ∙ some_role-ext _ xs ys members ∙ sym (has_named-some_role _ ys) in
    let overrides = get_all_channel_overrides channel.id (role_ids ys) t.overrides in
    let given = some_role-ext (λ r. bit i r.permissions) xs ys members in
    rw
      (
        named,
        given,
        overrides-ext channel.id xs ys t.overrides members,
        is_read_only-ext channel.access_mode xs ys members,
        some_role-ext (λ r. bit i (allowed_by (lookup r.id overrides))) xs ys members,
        some_role-ext (λ r. bit i (denied_by (lookup r.id overrides))) xs ys members,
      )
      refl

-- The mask of an identity on a channel depends only on which assignments there are, not on their
-- order nor on how often one is there.
pub get_effective_permissions-order :
    (node_owner : ℕ) (t : Tables) (rows : List RoleAssignment) (identity : ℕ) (channel : Channel)
    → SameMembers t.assignments rows
    → get_effective_permissions node_owner t identity channel
      ≡ get_effective_permissions node_owner (with_assignments t rows) identity channel
get_effective_permissions-order node_owner t rows identity channel same = bit_ext _ _ (λ i.
    get_effective_permissions_bits node_owner t identity channel i
    ∙ may-ext node_owner t rows identity channel i same
    ∙ sym (get_effective_permissions_bits node_owner (with_assignments t rows) identity channel i))
