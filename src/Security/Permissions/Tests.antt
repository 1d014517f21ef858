-- ===== src/Security/Permissions/Tests.antt =====
-- Masks of the sample identities.
use mathlib.Core.Path.{subst}
use hokora.Base.{
  ℕ, zero, suc, ◌^◌, ◌≡◌, refl, Bool, true, false, none, some, List, [], ◌∷◌, In, here, there,
  In-cons, inl, inr, sym,
}
use hokora.Base.Keys.{number_key, text_key}
use hokora.Base.Bits.{bit}
use hokora.Dict.{lookup, insert}
use hokora.Db.{RoleAssignment}
use hokora.Db.Roles.{
  find_role, find_role_named, get_identity_roles, get_channel_overrides, get_all_channel_overrides,
}
use hokora.Samples.{lobby, news, moderator, in_lobby, in_vault, in_vault_too, no_deleting, sample}
use hokora.Security.Permissions.{
  has_named, or_each, with_roles, all_allow, all_deny, strip_write, combine,
  get_effective_permissions, resolve,
}
use hokora.Security.Permissions.Meaning.{may, resolve-may}
use hokora.Security.Permissions.Order.{
  SameMembers, with_assignments, get_effective_permissions-order,
}
use hokora.Security.Permissions.Denial.{Holds, resolve_denied}

-- The default permissions, and those without writing.
bob_in_lobby : get_effective_permissions 1 sample 12 lobby ≡ 0x80EF
unfolding get_effective_permissions has_named get_identity_roles combine strip_write
    hokora.Base.Bits.and_not with_roles or_each find_role_named all_allow all_deny
bob_in_lobby = refl

bob_in_news : get_effective_permissions 1 sample 12 news ≡ 0x80EC
unfolding get_effective_permissions has_named get_identity_roles combine strip_write
    hokora.Base.Bits.and_not with_roles or_each find_role_named all_allow all_deny
bob_in_news = refl

alice_in_lobby : get_effective_permissions 1 sample 11 lobby ≡ 0x82EF
unfolding get_effective_permissions has_named get_identity_roles combine strip_write
    hokora.Base.Bits.and_not with_roles or_each find_role_named all_allow lookup
    get_all_channel_overrides insert all_deny
alice_in_lobby = refl

resolve-may_example : resolve 1 sample 11 lobby (2 ^ 9) ≡ may 1 sample 11 lobby 9
resolve-may_example = resolve-may 1 sample 11 lobby 9

abbrev turned : List RoleAssignment
turned = in_vault ∷ in_lobby ∷ in_vault_too ∷ in_lobby ∷ []

to_turned : (a : RoleAssignment) → In a sample.assignments → In a turned
to_turned a i = elim (In-cons i) [
  | inl e ↦ subst (λ (x : RoleAssignment). In x turned) (sym e) (there here)
  | inr j ↦ elim (In-cons j) [
    | inl e ↦ subst (λ (x : RoleAssignment). In x turned) (sym e) here
    | inr k ↦ elim (In-cons k) [
      | inl e ↦ subst (λ (x : RoleAssignment). In x turned) (sym e) (there (there here))
      | inr l ↦ elim l [ ]
    ]
  ]
]

from_turned : (a : RoleAssignment) → In a turned → In a sample.assignments
from_turned a i = elim (In-cons i) [
  | inl e ↦ subst (λ (x : RoleAssignment). In x sample.assignments) (sym e) (there here)
  | inr j ↦ elim (In-cons j) [
    | inl e ↦ subst (λ (x : RoleAssignment). In x sample.assignments) (sym e) here
    | inr k ↦ elim (In-cons k) [
      | inl e ↦ subst (λ (x : RoleAssignment). In x sample.assignments) (sym e) (there (there here))
      | inr l ↦ elim (In-cons l) [
        | inl e ↦ subst (λ (x : RoleAssignment). In x sample.assignments) (sym e) here
        | inr n ↦ elim n [ ]
      ]
    ]
  ]
]

turned-SameMembers : SameMembers sample.assignments turned
turned-SameMembers a = (to_turned a, from_turned a)

get_effective_permissions-order_example :
    get_effective_permissions 1 sample 11 lobby
    ≡ get_effective_permissions 1 (with_assignments sample turned) 11 lobby
get_effective_permissions-order_example =
    get_effective_permissions-order 1 sample turned 11 lobby turned-SameMembers

alice_moderates : Holds sample 11 5 moderator
unfolding find_role
alice_moderates = record { row = in_lobby; stands = here; does_count = refl; is_role = refl }

resolve_denied_example : resolve 1 sample 11 lobby (2 ^ 8) ≡ false
resolve_denied_example =
    resolve_denied 1 sample 11 lobby 8 moderator no_deleting
      (unfold get_channel_overrides in (refl, tt)) refl
      (unfold get_identity_roles has_named in refl) alice_moderates
      (unfold get_channel_overrides in refl) (unfold bit in refl)
