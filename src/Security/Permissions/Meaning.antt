-- ===== src/Security/Permissions/Meaning.antt =====
-- src/hokora/security/permissions.py: what a mask means, one permission at a time.
use Prim.Native.Nat.{bit_or}
use hokora.Base.{
  ℕ, zero, suc, ◌^◌, ◌≡◌, refl, Bool, true, false, not, ◌&&◌, ◌||◌, Option, some, List, [], ◌∷◌,
  arith, ◌==◌, sym, ◌∙◌, if◌then◌else◌, inl, inr, Bool-cases,
}
use hokora.Base.Keys.{number_key}
use hokora.Base.Bits.{and_not, bit, bit-bit_or, bit-and_not, bit-zero, bit_and-pow}
use hokora.Dict.{Dict, lookup}
use hokora.Db.{AccessMode, Channel, Role, ChannelOverride, Tables}
use hokora.Db.Roles.{find_role_named, get_identity_roles, get_all_channel_overrides}
use hokora.Security.Permissions.{
  role_channel_owner, role_everyone, perm_all, has_named, or_each, perm_send_messages,
  perm_send_media, baseline, with_roles, allowed_by, denied_by, all_allow, all_deny, is_read_only,
  strip_write, combine, role_ids, get_effective_permissions, resolve,
}

-- Whether some role of a list passes a test.
unfoldable pub some_role : (Role → Bool) → List Role → Bool
some_role test [] = false
some_role test (role ∷ roles) = test role || some_role test roles

-- Sending messages and sending media are permissions 0 and 1.
abbrev pub is_write : ℕ → Bool
is_write zero = true
is_write (suc zero) = true
is_write (suc (suc i)) = false

-- The five levels for permission `i`: the owners have all sixteen; for anyone else the baseline, a
-- role or an allow gives it, unless a deny takes it away or the channel is read-only to them.
unfoldable pub may : ℕ → Tables → ℕ → Channel → ℕ → Bool
may node_owner t identity channel i =
    let roles = get_identity_roles t identity (some channel.id) false in
    let overrides = get_all_channel_overrides channel.id (role_ids roles) t.overrides in
    if identity == node_owner || has_named role_channel_owner roles
    then bit i perm_all
    else (bit i (baseline (find_role_named role_everyone t.roles))
        || (some_role (λ r. bit i r.permissions) roles
            || some_role (λ r. bit i (allowed_by (lookup r.id overrides))) roles))
      && (not (some_role (λ r. bit i (denied_by (lookup r.id overrides))) roles)
          && not (is_write i && is_read_only channel.access_mode roles))

bit-or_each :
    (i mask : ℕ) (of : Role → ℕ) (roles : List Role)
    → bit i (or_each of mask roles) ≡ (bit i mask || some_role (λ r. bit i (of r)) roles)
unfolding or_each some_role
bit-or_each i mask of [] = ground arith
bit-or_each i mask of (role ∷ roles) =
    let head = bit-bit_or i mask (of role) in
    ground (arith, bit-or_each i (bit_or mask (of role)) of roles, head)

bit-write : (i : ℕ) → bit i (bit_or perm_send_messages perm_send_media) ≡ is_write i
unfolding bit
bit-write zero = refl
bit-write (suc zero) = refl
bit-write (suc (suc i)) = bit-zero i

bit-strip_write :
    (i perms : ℕ) (b : Bool) → bit i (strip_write b perms) ≡ (bit i perms && not (is_write i && b))
unfolding strip_write
bit-strip_write i perms true =
    let mask = bit-and_not i perms (bit_or perm_send_messages perm_send_media) in
    ground (arith, mask, bit-write i)
bit-strip_write i perms false = ground arith

-- One digit of the mask of an identity that owns neither the node nor the channel.
pub bit-combine :
    (i : ℕ) (everyone : Option Role) (roles : List Role) (overrides : Dict ℕ ChannelOverride)
    (mode : AccessMode)
    → bit i (combine everyone roles overrides mode) ≡ (
        (bit i (baseline everyone)
          || (some_role (λ r. bit i r.permissions) roles
              || some_role (λ r. bit i (allowed_by (lookup r.id overrides))) roles))
        && (not (some_role (λ r. bit i (denied_by (lookup r.id overrides))) roles)
            && not (is_write i && is_read_only mode roles)))
unfolding combine with_roles all_allow all_deny
bit-combine i everyone roles overrides mode =
    let given = with_roles (baseline everyone) roles in
    let allow = all_allow roles overrides in
    let deny = all_deny roles overrides in
    ground (
      arith,
      bit-strip_write i (and_not (bit_or given allow) deny) (is_read_only mode roles),
      bit-and_not i (bit_or given allow) deny,
      bit-bit_or i given allow,
      bit-or_each i (baseline everyone) (λ r. r.permissions) roles,
      bit-or_each i 0 (λ r. allowed_by (lookup r.id overrides)) roles,
      bit-or_each i 0 (λ r. denied_by (lookup r.id overrides)) roles,
      bit-zero i,
    )

pub get_effective_permissions_bits :
    (node_owner : ℕ) (t : Tables) (identity : ℕ) (channel : Channel) (i : ℕ)
    → bit i (get_effective_permissions node_owner t identity channel)
      ≡ may node_owner t identity channel i
unfolding get_effective_permissions may
get_effective_permissions_bits node_owner t identity channel i =
    let roles = get_identity_roles t identity (some channel.id) false in
    let overrides = get_all_channel_overrides channel.id (role_ids roles) t.overrides in
    let everyone = find_role_named role_everyone t.roles in
    elim (Bool-cases (identity == node_owner)) [
      | inl is_owner ↦ rw is_owner refl
      | inr other ↦ elim (Bool-cases (has_named role_channel_owner roles)) [
        | inl owns ↦ rw (other, owns) refl
        | inr plain ↦ rw (other, plain) (bit-combine i everyone roles overrides channel.access_mode)
      ]
    ]

-- A request for a single permission is answered as the five levels say: the owners of the node
-- and of the channel have all sixteen permissions; for anyone else the baseline, a role or an
-- allow gives it, unless a deny of one of the identity's roles takes it away or it is a write in
-- a write-restricted channel where the identity has no role.
pub resolve-may :
    (node_owner : ℕ) (t : Tables) (identity : ℕ) (channel : Channel) (i : ℕ)
    → resolve node_owner t identity channel (2 ^ i) ≡ may node_owner t identity channel i
unfolding resolve
resolve-may node_owner t identity channel i =
    let perms = get_effective_permissions node_owner t identity channel in
    sym (bit_and-pow i perms) ∙ get_effective_permissions_bits node_owner t identity channel i
