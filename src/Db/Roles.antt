-- ===== src/Db/Roles.antt =====
-- RoleRepo of src/hokora/db/queries.py. The order in which SQL returns rows is that of the table.
use hokora.Base.{
  ℕ, Bool, true, false, not, ◌&&◌, ◌||◌, Option, none, some, String, List, [], ◌∷◌, ◌==◌,
  if◌then◌else◌,
}
use hokora.Base.Keys.{◌≟◌, number_key, text_key}
use hokora.Dict.{Dict, insert}
use hokora.Db.{Role, RoleAssignment, ChannelOverride, Tables}

unfoldable pub find_role : ℕ → List Role → Option Role
find_role wanted [] = none
find_role wanted (row ∷ rows) = if row.id == wanted then some row else find_role wanted rows

unfoldable pub find_role_named : String → List Role → Option Role
find_role_named wanted [] = none
find_role_named wanted (row ∷ rows) =
    if row.name ≟ wanted then some row else find_role_named wanted rows

-- The scopes that a query for a channel, or for no channel, takes in.
abbrev pub in_scope : Option ℕ → Bool → Option ℕ → Bool
in_scope none strict none = true
in_scope none strict (some c) = false
in_scope (some channel) strict none = not strict
in_scope (some channel) strict (some c) = c == channel

abbrev pub counts : ℕ → Option ℕ → Bool → RoleAssignment → Bool
counts identity channel strict row =
    row.identity_hash == identity && in_scope channel strict row.channel_id

-- The join: an assignment of a role that is not there gives no row.
abbrev pub join_role : Option Role → List Role → List Role
join_role none rest = rest
join_role (some role) rest = role ∷ rest

unfoldable pub roles_of : List Role → ℕ → Option ℕ → Bool → List RoleAssignment → List Role
unfolding find_role
roles_of roles identity channel strict [] = []
roles_of roles identity channel strict (row ∷ rows) =
    let rest = roles_of roles identity channel strict rows in
    if counts identity channel strict row
    then join_role (find_role row.role_id roles) rest
    else rest

unfoldable pub get_identity_roles : Tables → ℕ → Option ℕ → Bool → List Role
unfolding roles_of
get_identity_roles t identity channel strict =
    roles_of t.roles identity channel strict t.assignments

abbrev pub same_scope : Option ℕ → Option ℕ → Bool
same_scope none none = true
same_scope none (some c) = false
same_scope (some channel) none = false
same_scope (some channel) (some c) = c == channel

-- The columns of the unique constraint.
abbrev pub is_same_assignment : ℕ → ℕ → Option ℕ → RoleAssignment → Bool
is_same_assignment role identity channel row =
    row.role_id == role && (row.identity_hash == identity && same_scope channel row.channel_id)

unfoldable pub find_assignment : ℕ → ℕ → Option ℕ → List RoleAssignment → Option RoleAssignment
find_assignment role identity channel [] = none
find_assignment role identity channel (row ∷ rows) =
    if is_same_assignment role identity channel row
    then some row
    else find_assignment role identity channel rows

unfoldable pub get_channel_overrides : ℕ → ℕ → List ChannelOverride → Option ChannelOverride
get_channel_overrides channel role [] = none
get_channel_overrides channel role (row ∷ rows) =
    if row.channel_id == channel && row.role_id == role
    then some row
    else get_channel_overrides channel role rows

abbrev pub is_among : ℕ → List ℕ → Bool
is_among wanted [] = false
is_among wanted (x ∷ xs) = x == wanted || is_among wanted xs

-- `{o.role_id: o for o in rows}`
unfoldable pub by_role :
    ℕ → List ℕ → List ChannelOverride → Dict ℕ ChannelOverride → Dict ℕ ChannelOverride
by_role channel role_ids [] found = found
by_role channel role_ids (row ∷ rows) found = by_role channel role_ids rows (
    if row.channel_id == channel && is_among row.role_id role_ids
    then insert row.role_id row found
    else found)

unfoldable pub get_all_channel_overrides :
    ℕ → List ℕ → List ChannelOverride → Dict ℕ ChannelOverride
unfolding by_role
get_all_channel_overrides channel [] rows = []
get_all_channel_overrides channel (role ∷ role_ids) rows = by_role channel (role ∷ role_ids) rows []

-- The hashes with a role on a channel, each once.
unfoldable pub member_hashes : ℕ → List RoleAssignment → List ℕ
member_hashes channel [] = []
member_hashes channel (row ∷ rows) =
    let rest = member_hashes channel rows in
    if same_scope (some channel) row.channel_id && not (is_among row.identity_hash rest)
    then row.identity_hash ∷ rest
    else rest
