-- ===== src/Security/Roles.antt =====
-- src/hokora/security/roles.py: creating, assigning and removing roles. A new id is an argument, as
-- `uuid4` draws it. Foreign keys are not checked; the unique constraints are.
pub mod Assigned
pub mod Hierarchy
pub mod Removal
mod Tests
use hokora.Base.{
  ℕ, Bool, true, false, not, ◌&&◌, ◌||◌, Option, none, some, String, List, [], ◌∷◌, ◌++◌, leb, ◌==◌,
  if◌then◌else◌,
}
use hokora.Base.Keys.{◌≟◌, text_key}
use hokora.Result.{Result, ok, err}
use hokora.Db.{Channel, Role, RoleAssignment, Tables}
use hokora.Db.Roles.{find_role, find_role_named, same_scope, is_same_assignment, find_assignment}
use hokora.Db.Messages.{find_channel}
use hokora.Security.Permissions.{perm_all, perm_everyone_default, role_channel_owner, role_everyone}

abbrev pub role_node_owner : String
role_node_owner = "node_owner"

abbrev pub role_member : String
role_member = "member"

-- The first three are PermissionDenied, the others IntegrityError.
pub data RoleError : Type 0 where
  builtin_name above_actor role_not_found : RoleError
  duplicate_name duplicate_assignment : RoleError

pub record Builtin : Type 0 where
  pub name : String
  pub permissions : ℕ
  pub position : ℕ

abbrev pub builtin_roles : List Builtin
builtin_roles =
    record { name = role_node_owner; permissions = perm_all; position = 1000 }
    ∷ record { name = role_channel_owner; permissions = perm_all; position = 999 }
    ∷ record { name = role_everyone; permissions = perm_everyone_default; position = 0 }
    ∷ record { name = role_member; permissions = perm_everyone_default; position = 1 }
    ∷ []

unfoldable pub is_builtin_name : String → List Builtin → Bool
is_builtin_name name [] = false
is_builtin_name name (b ∷ bs) = b.name ≟ name || is_builtin_name name bs

-- A built-in role whose permissions differ takes both of its values from the code.
abbrev pub refreshed : Builtin → Role → Role
refreshed b role =
    if role.is_builtin && not (role.permissions == b.permissions)
    then record role { permissions = b.permissions; position = b.position }
    else role

unfoldable pub refresh_role : Builtin → List Role → List Role
refresh_role b [] = []
refresh_role b (role ∷ roles) =
    let rest = refresh_role b roles in
    if role.name ≟ b.name then refreshed b role ∷ roles else role ∷ rest

abbrev pub ensure_role : Builtin → ℕ → List Role → List Role
ensure_role b id roles = elim (find_role_named b.name roles) [
  | none ↦
      roles
      ++ (record {
        id = id;
        name = b.name;
        permissions = b.permissions;
        position = b.position;
        is_builtin = true;
      })
        ∷ []
  | some role ↦ refresh_role b roles
]

-- The ids are those that are drawn for the roles that are missing.
unfoldable pub ensure_each : List Builtin → (ℕ → ℕ) → List Role → List Role
ensure_each [] id roles = roles
ensure_each (b ∷ bs) id roles = ensure_each bs id (ensure_role b (id b.position) roles)

unfoldable pub ensure_builtin_roles : Tables → (ℕ → ℕ) → Tables
ensure_builtin_roles t id = record t { roles = ensure_each builtin_roles id t.roles }

-- `actor_position is not None and position >= actor_position`
abbrev pub is_above : ℕ → Option ℕ → Bool
is_above position none = false
is_above position (some actor) = leb actor position

abbrev pub insert_role : Tables → Role → Option Role → Result RoleError Role × Tables
insert_role t role none = (ok role, record t { roles = t.roles ++ role ∷ [] })
insert_role t role (some existing) = (err duplicate_name, t)

unfoldable pub create_role : Tables → ℕ → String → ℕ → ℕ → Option ℕ → Result RoleError Role × Tables
create_role t id name permissions position actor_position =
    if is_builtin_name name builtin_roles
    then (err builtin_name, t)
    else if is_above position actor_position
    then (err above_actor, t)
    else insert_role t
        (record {
          id = id;
          name = name;
          permissions = permissions;
          position = position;
          is_builtin = false;
        })
        (find_role_named name t.roles)

-- A global assignment that is there is returned. SQLite's constraint refuses the others twice.
abbrev pub already_assigned :
    Tables → Option ℕ → RoleAssignment → Result RoleError RoleAssignment × Tables
already_assigned t none existing = (ok existing, t)
already_assigned t (some c) existing = (err duplicate_assignment, t)

abbrev pub insert_assignment :
    Tables → RoleAssignment → Option RoleAssignment → Result RoleError RoleAssignment × Tables
insert_assignment t row none = (ok row, record t { assignments = t.assignments ++ row ∷ [] })
insert_assignment t row (some existing) = already_assigned t row.channel_id existing

unfoldable pub assign_row :
    Tables → ℕ → ℕ → Option ℕ → Option ℕ → Result RoleError RoleAssignment × Tables
assign_row t role identity channel assigned_by =
    insert_assignment t
      (record {
        role_id = role;
        identity_hash = identity;
        channel_id = channel;
        assigned_by = assigned_by;
      })
      (find_assignment role identity channel t.assignments)

abbrev pub assign_found :
    Tables
    → Option Role
    → ℕ
    → ℕ
    → Option ℕ
    → Option ℕ
    → Option ℕ
    → Result RoleError RoleAssignment × Tables
assign_found t none role identity channel assigned_by actor_position = (err role_not_found, t)
assign_found t (some found) role identity channel assigned_by actor_position =
    if is_above found.position actor_position
    then (err above_actor, t)
    else assign_row t role identity channel assigned_by

unfoldable pub assign_role :
    Tables → ℕ → ℕ → Option ℕ → Option ℕ → Option ℕ → Result RoleError RoleAssignment × Tables
assign_role t role identity channel assigned_by actor_position =
    assign_found t (find_role role t.roles) role identity channel assigned_by actor_position

unfoldable pub delete_assignment : ℕ → ℕ → Option ℕ → List RoleAssignment → List RoleAssignment
delete_assignment role identity channel [] = []
delete_assignment role identity channel (row ∷ rows) =
    let rest = delete_assignment role identity channel rows in
    if is_same_assignment role identity channel row then rows else row ∷ rest

-- What the sealed manager is asked to do about the channel's key.
pub data Rotation : Type 0 where
  rotate_key : ℕ → Rotation
  rotate_and_distribute : ℕ → List ℕ → Rotation

-- The hashes on the channel other than the one that lost its role, one for each row.
unfoldable pub remaining_hashes : ℕ → ℕ → List RoleAssignment → List ℕ
remaining_hashes channel identity [] = []
remaining_hashes channel identity (row ∷ rows) =
    let rest = remaining_hashes channel identity rows in
    if same_scope (some channel) row.channel_id && not (row.identity_hash == identity)
    then row.identity_hash ∷ rest
    else rest

abbrev pub rotation : Bool → ℕ → ℕ → List RoleAssignment → Option Channel → Option Rotation
rotation can_distribute channel identity rows none = none
rotation can_distribute channel identity rows (some ch) =
    if ch.sealed
    then if can_distribute
      then some (rotate_and_distribute channel (remaining_hashes channel identity rows))
      else some (rotate_key channel)
    else none

abbrev pub rotation_for :
    Bool → Bool → Option ℕ → ℕ → List RoleAssignment → List Channel → Option Rotation
rotation_for has_manager can_distribute none identity rows channels = none
rotation_for has_manager can_distribute (some channel) identity rows channels =
    if has_manager
    then rotation can_distribute channel identity rows (find_channel channel channels)
    else none

abbrev pub remove_found :
    Tables
    → Option RoleAssignment
    → ℕ
    → ℕ
    → Option ℕ
    → Bool
    → Bool
    → Bool × Tables × Option Rotation
remove_found t none role identity channel has_manager can_distribute = (false, t, none)
remove_found t (some found) role identity channel has_manager can_distribute =
    let rows = delete_assignment role identity channel t.assignments in
    (
      true,
      record t { assignments = rows },
      rotation_for has_manager can_distribute channel identity rows t.channels,
    )

-- `has_manager` says whether a sealed manager was passed, `can_distribute` whether a router and the
-- node's identity were.
unfoldable pub remove_role :
    Tables → ℕ → ℕ → Option ℕ → Bool → Bool → Bool × Tables × Option Rotation
remove_role t role identity channel has_manager can_distribute =
    remove_found t (find_assignment role identity channel t.assignments) role identity channel
      has_manager can_distribute
