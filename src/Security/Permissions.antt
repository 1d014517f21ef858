-- ===== src/Security/Permissions.antt =====
-- src/hokora/security/permissions.py: the permissions that an identity has on a channel, as a mask.
pub mod Meaning
pub mod Order
pub mod Lookup
pub mod Denial
mod Tests
use Prim.Native.Nat.{bit_and, bit_or}
use hokora.Base.{
  ℕ, ◌+◌, Bool, true, false, not, ◌||◌, Option, none, some, String, List, [], ◌∷◌, map, ◌==◌,
  if◌then◌else◌,
}
use hokora.Base.Bits.{and_not}
use hokora.Base.Keys.{◌≟◌, text_key, number_key}
use hokora.Dict.{Dict, lookup}
use hokora.Db.{
  AccessMode, public, write_restricted, private, Channel, Role, ChannelOverride, Tables,
}
use hokora.Db.Roles.{find_role_named, get_identity_roles, get_all_channel_overrides}

abbrev pub perm_send_messages : ℕ
perm_send_messages = 0x0001

abbrev pub perm_send_media : ℕ
perm_send_media = 0x0002

abbrev pub perm_create_threads : ℕ
perm_create_threads = 0x0004

abbrev pub perm_use_mentions : ℕ
perm_use_mentions = 0x0008

abbrev pub perm_mention_everyone : ℕ
perm_mention_everyone = 0x0010

abbrev pub perm_add_reactions : ℕ
perm_add_reactions = 0x0020

abbrev pub perm_read_history : ℕ
perm_read_history = 0x0040

abbrev pub perm_delete_own : ℕ
perm_delete_own = 0x0080

abbrev pub perm_delete_others : ℕ
perm_delete_others = 0x0100

abbrev pub perm_pin_messages : ℕ
perm_pin_messages = 0x0200

abbrev pub perm_edit_own : ℕ
perm_edit_own = 0x8000

abbrev pub perm_all : ℕ
perm_all = 0xFFFF

abbrev pub perm_everyone_default : ℕ
perm_everyone_default =
    perm_send_messages + perm_send_media + perm_create_threads + perm_use_mentions
    + perm_add_reactions + perm_read_history + perm_delete_own + perm_edit_own

abbrev pub role_channel_owner : String
role_channel_owner = "channel_owner"

abbrev pub role_everyone : String
role_everyone = "everyone"

-- `ROLE_CHANNEL_OWNER in role_names`
unfoldable pub has_named : String → List Role → Bool
has_named name [] = false
has_named name (role ∷ roles) = role.name ≟ name || has_named name roles

abbrev pub baseline : Option Role → ℕ
baseline none = 0
baseline (some role) = role.permissions

-- `mask |= of(role)`, over the roles
unfoldable pub or_each : (Role → ℕ) → ℕ → List Role → ℕ
or_each of mask [] = mask
or_each of mask (role ∷ roles) = or_each of (bit_or mask (of role)) roles

-- `for role in roles: perms |= role.permissions`
unfoldable pub with_roles : ℕ → List Role → ℕ
with_roles perms roles = or_each (λ r. r.permissions) perms roles

abbrev pub allowed_by : Option ChannelOverride → ℕ
allowed_by none = 0
allowed_by (some o) = o.allow

abbrev pub denied_by : Option ChannelOverride → ℕ
denied_by none = 0
denied_by (some o) = o.deny

-- `all_allow |= override.allow`, over the roles that have an override
unfoldable pub all_allow : List Role → Dict ℕ ChannelOverride → ℕ
all_allow roles overrides = or_each (λ r. allowed_by (lookup r.id overrides)) 0 roles

unfoldable pub all_deny : List Role → Dict ℕ ChannelOverride → ℕ
all_deny roles overrides = or_each (λ r. denied_by (lookup r.id overrides)) 0 roles

-- `channel.access_mode == ACCESS_WRITE_RESTRICTED and not roles`
abbrev pub is_read_only : AccessMode → List Role → Bool
is_read_only write_restricted [] = true
is_read_only write_restricted (role ∷ roles) = false
is_read_only public roles = false
is_read_only private roles = false

unfoldable pub strip_write : Bool → ℕ → ℕ
strip_write true perms = and_not perms (bit_or perm_send_messages perm_send_media)
strip_write false perms = perms

-- The mask of an identity that owns neither the node nor the channel.
unfoldable pub combine : Option Role → List Role → Dict ℕ ChannelOverride → AccessMode → ℕ
combine everyone roles overrides mode = strip_write (is_read_only mode roles) (
    and_not (bit_or (with_roles (baseline everyone) roles) (all_allow roles overrides))
      (all_deny roles overrides))

abbrev pub role_ids : List Role → List ℕ
role_ids [] = []
role_ids (role ∷ roles) = role.id ∷ role_ids roles

-- `node_owner_hash` is the resolver's one field.
unfoldable pub get_effective_permissions : ℕ → Tables → ℕ → Channel → ℕ
get_effective_permissions node_owner t identity channel =
    let roles = get_identity_roles t identity (some channel.id) false in
    if identity == node_owner
    then perm_all
    else if has_named role_channel_owner roles
    then perm_all
    else combine (find_role_named role_everyone t.roles) roles
        (get_all_channel_overrides channel.id (role_ids roles) t.overrides) channel.access_mode

-- `bool(perms & required)`
abbrev pub has_permission : ℕ → ℕ → Bool
has_permission perms required = not (bit_and perms required == 0)

unfoldable pub resolve : ℕ → Tables → ℕ → Channel → ℕ → Bool
resolve node_owner t identity channel required =
    has_permission (get_effective_permissions node_owner t identity channel) required
