-- ===== src/Security/Roles/Tests.antt =====
-- Runs of the role manager on the sample tables.
use hokora.Base.{ℕ, ◌+◌, length, ◌≡◌, ◌≢◌, refl, true, false, none, some, List, In}
use hokora.Result.{err}
use hokora.Db.{Role, RoleAssignment, Tables}
use hokora.Db.Roles.{find_role, find_assignment, same_scope}
use hokora.Db.Messages.{find_channel}
use hokora.Samples.{vault, in_vault, sample}
use hokora.Security.Roles.{
  above_actor, duplicate_assignment, rotate_and_distribute, ensure_each, ensure_builtin_roles,
  create_role, assign_row, assign_role, delete_assignment, remaining_hashes, remove_role,
}
use hokora.Security.Roles.Assigned.{IsDistinct, unmanaged, assigned, removed, Managed-IsDistinct}
use hokora.Security.Roles.Removal.{IsMember, remove_role-revokes, remove_role-rekeys}
use hokora.Security.Roles.Hierarchy.{idle, creates, assigns, OnlyBelow, Acts-OnlyBelow}

-- An actor at position 10 cannot hand out the moderator's role.
too_high : (assign_role sample 3 12 (some 5) (some 11) (some 10)).0 ≡ err above_actor
unfolding assign_role find_role
too_high = refl

twice_in_lobby : (assign_role sample 3 11 (some 5) none none).0 ≡ err duplicate_assignment
unfolding assign_role find_role assign_row find_assignment
twice_in_lobby = refl

-- The three built-in roles that were missing are there.
three_more : length (ensure_builtin_roles sample (λ position. position + 100)).roles ≡ 5
unfolding ensure_builtin_roles ensure_each hokora.Db.Roles.find_role_named
    hokora.Security.Roles.refresh_role
three_more = refl

sample-IsDistinct : IsDistinct sample.assignments
unfolding find_assignment
sample-IsDistinct = (refl, (refl, (refl, tt)))

Managed-IsDistinct_example :
    IsDistinct
      (remove_role
        (assign_role sample 3 12 none none none).1
        3
        11
        (some 5)
        false
        false).1.assignments
Managed-IsDistinct_example =
    Managed-IsDistinct
      (removed 3 11 (some 5) false false (assigned 3 12 none none none (unmanaged {t = sample})))
      sample-IsDistinct

remove_role-revokes_at_vault :
    find_assignment 3 11 (some 7) (remove_role sample 3 11 (some 7) true true).1.assignments ≡ none
remove_role-revokes_at_vault =
    (remove_role-revokes sample 3 11 (some 7) true true in_vault sample-IsDistinct
      (unfold find_assignment in refl)).1

remove_role-rekeys_example :
    (hashes : List ℕ) × ((remove_role sample 3 11 (some 7) true true).2
      ≡ some (rotate_and_distribute 7 hashes))
    × ((who : ℕ)
        → (In who hashes
            → (who ≢ 11)
              × IsMember 7 who (remove_role sample 3 11 (some 7) true true).1.assignments)
          × (who ≢ 11
              → IsMember 7 who (remove_role sample 3 11 (some 7) true true).1.assignments
              → In who hashes))
remove_role-rekeys_example =
    remove_role-rekeys sample 3 11 7 vault in_vault (unfold find_channel in refl) refl
      (unfold find_assignment in refl)

Acts-OnlyBelow_example :
    OnlyBelow 20 sample
      (assign_role
        (create_role sample 8 "helper" 0x0200 5 (some 20)).1
        8
        12
        (some 5)
        none
        (some 20)).1
Acts-OnlyBelow_example =
    Acts-OnlyBelow 20 (assigns 8 12 (some 5) none (creates 8 "helper" 0x0200 5 (idle {t = sample})))
