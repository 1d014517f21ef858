-- ===== src/Security/Permissions/Denial.antt =====
-- src/hokora/security/permissions.py: a deny wins over all that gives a permission.
use hokora.Base.{ℕ, ◌^◌, ◌≡◌, ◌∙◌, true, false, some, arith, ◌==◌, In}
use hokora.Base.Keys.{number_key}
use hokora.Base.Bits.{bit}
use hokora.Dict.{lookup}
use hokora.Db.{Channel, Role, ChannelOverride, Tables}
use hokora.Db.Roles.{get_identity_roles, is_among, get_channel_overrides, get_all_channel_overrides}
use hokora.Security.Permissions.{role_channel_owner, has_named, denied_by, role_ids, resolve}
use hokora.Security.Permissions.Lookup.{
  Because, roles_of-In, IsIndexed, lookup-get_all_channel_overrides,
}
use hokora.Security.Permissions.Meaning.{some_role, may, resolve-may}
use hokora.Security.Permissions.Order.{some_role-In, is_among-role_ids}

-- The role is held by the identity on the channel, or on the whole node.
abbrev pub Holds : Tables → ℕ → ℕ → Role → Type 0
Holds t identity channel role = Because t.roles identity (some channel) false t.assignments role

Holds-In :
    (t : Tables) (identity channel : ℕ) (role : Role)
    → Holds t identity channel role
    → In role (get_identity_roles t identity (some channel) false)
unfolding get_identity_roles
Holds-In t identity channel role b =
    roles_of-In t.roles identity (some channel) false t.assignments role b.row b.stands b.does_count
      b.is_role

-- If a role that an identity holds, on the channel or on the whole node, has an override on the
-- channel that denies a permission, the identity does not have it there, unless it owns the node
-- or the channel. The overrides of a channel and a role are unique.
pub resolve_denied :
    (node_owner : ℕ) (t : Tables) (identity : ℕ) (channel : Channel) (i : ℕ) (role : Role)
    (o : ChannelOverride)
    → IsIndexed t.overrides
    → (identity == node_owner) ≡ false
    → has_named role_channel_owner (get_identity_roles t identity (some channel.id) false) ≡ false
    → Holds t identity channel.id role
    → get_channel_overrides channel.id role.id t.overrides ≡ some o
    → bit i o.deny ≡ true
    → resolve node_owner t identity channel (2 ^ i) ≡ false
unfolding may
resolve_denied node_owner t identity channel i role o indexed other plain holds found denies =
    let roles = get_identity_roles t identity (some channel.id) false in
    let overrides = get_all_channel_overrides channel.id (role_ids roles) t.overrides in
    let member = Holds-In t identity channel.id role holds in
    let among : is_among role.id (role_ids roles) ≡ true =
      is_among-role_ids role.id roles
      ∙ some_role-In (λ r. r.id == role.id) roles role member (ground arith) in
    let looked : lookup role.id overrides ≡ some o =
      lookup-get_all_channel_overrides channel.id (role_ids roles) role.id t.overrides indexed among
      ∙ found in
    let denied : some_role (λ r. bit i (denied_by (lookup r.id overrides))) roles ≡ true =
      some_role-In (λ r. bit i (denied_by (lookup r.id overrides))) roles role member
        (rw looked denies) in
    resolve-may node_owner t identity channel i ∙ rw (other, plain, denied) (ground arith)
