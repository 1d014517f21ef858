-- ===== src/Security/Roles/Removal.antt =====
-- src/hokora/security/roles.py: what a removal takes away, and who is sent the new key.
use mathlib.Core.Path.{subst}
use hokora.Base.{
  ℕ, ◌⊎◌, ◌≡◌, ◌≢◌, refl, sym, ◌∙◌, ap, Bool, true, false, not, ◌&&◌, Option, none, some, List, [],
  ◌∷◌, arith, ◌==◌, if◌then◌else◌, inl, inr, Bool-cases, In, here, there, In-cons,
}
use hokora.Db.{Channel, RoleAssignment, Tables}
use hokora.Db.Roles.{same_scope, is_same_assignment, find_assignment}
use hokora.Db.Messages.{find_channel}
use hokora.Security.Roles.{rotate_and_distribute, delete_assignment, remaining_hashes, remove_role}
use hokora.Security.Roles.Assigned.{IsDistinct, same_scope_trans, find-delete_self}

-- The identity has some role on the channel.
abbrev pub IsMember : ℕ → ℕ → List RoleAssignment → Type 0
IsMember channel identity [] = ⊥
IsMember channel identity (row ∷ rows) =
    ((row.identity_hash ≡ identity) × (row.channel_id ≡ some channel))
    ⊎ IsMember channel identity rows

same_scope-some :
    (channel : ℕ) (c : Option ℕ) → same_scope (some channel) c ≡ true → c ≡ some channel
same_scope-some channel none h = absurd (cc)
same_scope-some channel (some c) h = ground arith

abbrev remains : ℕ → ℕ → RoleAssignment → Bool
remains channel identity row =
    same_scope (some channel) row.channel_id && not (row.identity_hash == identity)

remains_here :
    (channel identity who : ℕ) (row : RoleAssignment)
    → who ≢ identity
    → row.identity_hash ≡ who
    → row.channel_id ≡ some channel
    → remains channel identity row ≡ true
remains_here channel identity who row n p q =
    let scope : same_scope (some channel) row.channel_id ≡ true =
      ap (same_scope (some channel)) q ∙ ground arith in
    let differs : row.identity_hash ≢ identity = λ e. n (sym p ∙ e) in
    ground (arith, scope, differs)

module _ (channel identity : ℕ) where
  remaining_hashes-In :
      (rows : List RoleAssignment) (who : ℕ)
      → In who (remaining_hashes channel identity rows)
      → (who ≢ identity) × IsMember channel who rows
  unfolding remaining_hashes
  remaining_hashes-In [] who i = elim i [ ]
  remaining_hashes-In (row ∷ rows) who i =
      let go = remaining_hashes-In rows who in
      elim (Bool-cases (remains channel identity row)) [
        | inl e ↦
            let i' : In who (row.identity_hash ∷ remaining_hashes channel identity rows) =
              rw e at i in
            elim (In-cons i') [
              | inl p ↦
                  let scope : same_scope (some channel) row.channel_id ≡ true = ground arith in
                  (ground arith, inl (sym p, same_scope-some channel row.channel_id scope))
              | inr j ↦ let r = go j in (r.0, inr r.1)
            ]
        | inr e ↦
            let i' : In who (remaining_hashes channel identity rows) = rw e at i in
            let r = go i' in (r.0, inr r.1)
      ]

  In-remaining_hashes :
      (rows : List RoleAssignment) (who : ℕ)
      → who ≢ identity
      → IsMember channel who rows
      → In who (remaining_hashes channel identity rows)
  unfolding remaining_hashes
  In-remaining_hashes [] who n m = absurd m
  In-remaining_hashes (row ∷ rows) who n (inl (p, q)) =
      rw (remains_here channel identity who row n p q)
        (subst (λ (x : ℕ). In who (x ∷ remaining_hashes channel identity rows)) (sym p) here)
  In-remaining_hashes (row ∷ rows) who n (inr m) =
      let rest = In-remaining_hashes rows who n m in
      elim (Bool-cases (remains channel identity row)) [
        | inl e ↦ rw e (there rest)
        | inr e ↦ rw e rest
      ]

-- The columns are not those of the removed row.
abbrev pub OtherColumns : ℕ → ℕ → Option ℕ → ℕ → ℕ → Option ℕ → Type 0
OtherColumns r i c role identity channel =
    (r ≢ role) ⊎ ((i ≢ identity) ⊎ (same_scope c channel ≡ false))

deleted_differs :
    (role identity : ℕ) (channel : Option ℕ) (r i : ℕ) (c : Option ℕ) (x : RoleAssignment)
    → OtherColumns r i c role identity channel
    → is_same_assignment role identity channel x ≡ true
    → is_same_assignment r i c x ≡ false
deleted_differs role identity channel r i c x (inl n) h = ground arith
deleted_differs role identity channel r i c x (inr (inl n)) h = ground arith
deleted_differs role identity channel r i c x (inr (inr n)) h =
    ground (arith, same_scope_trans c x.channel_id channel)

find-delete_other :
    (role identity : ℕ) (channel : Option ℕ) (r i : ℕ) (c : Option ℕ) (rows : List RoleAssignment)
    → OtherColumns r i c role identity channel
    → find_assignment r i c (delete_assignment role identity channel rows)
      ≡ find_assignment r i c rows
unfolding find_assignment delete_assignment
find-delete_other role identity channel r i c [] o = refl
find-delete_other role identity channel r i c (x ∷ rows) o =
    elim (Bool-cases (is_same_assignment role identity channel x)) [
      | inl e ↦ rw (e, deleted_differs role identity channel r i c x o e) refl
      | inr e ↦ rw e (
          ap (λ (rest : Option RoleAssignment). if is_same_assignment r i c x then some x else rest)
            (find-delete_other role identity channel r i c rows o))
    ]

-- An identity that had the role no longer has it, and every other role, identity and scope is as it
-- was.
pub remove_role-revokes :
    (t : Tables) (role identity : ℕ) (channel : Option ℕ) (has_manager can_distribute : Bool)
    (found : RoleAssignment)
    → IsDistinct t.assignments
    → find_assignment role identity channel t.assignments ≡ some found
    → let (removed, t', _) = remove_role t role identity channel has_manager can_distribute in
      (removed ≡ true)
      × (find_assignment role identity channel t'.assignments ≡ none)
      × ((r i : ℕ) (c : Option ℕ)
          → OtherColumns r i c role identity channel
          → find_assignment r i c t'.assignments ≡ find_assignment r i c t.assignments)
unfolding remove_role
remove_role-revokes t role identity channel m s found d h = rw h (
  refl,
  find-delete_self role identity channel t.assignments d,
  λ r i c o. find-delete_other role identity channel r i c t.assignments o,
)

-- The removal of an assigned role on a sealed channel, with a sealed manager and the means to
-- send, asks for a new key for exactly the identities other than the one that lost it that have a
-- role on the channel.
pub remove_role-rekeys :
    (t : Tables) (role identity channel : ℕ) (ch : Channel) (found : RoleAssignment)
    → find_channel channel t.channels ≡ some ch
    → ch.sealed ≡ true
    → find_assignment role identity (some channel) t.assignments ≡ some found
    → let (_, t', rekeyed) = remove_role t role identity (some channel) true true in
      (hashes : List ℕ) × (rekeyed ≡ some (rotate_and_distribute channel hashes))
      × ((who : ℕ)
          → (In who hashes → (who ≢ identity) × IsMember channel who t'.assignments)
            × (who ≢ identity → IsMember channel who t'.assignments → In who hashes))
unfolding remove_role
remove_role-rekeys t role identity channel ch found hc sealed h =
    let rows = delete_assignment role identity (some channel) t.assignments in
    rw (h, hc, sealed)
      (
        remaining_hashes channel identity rows,
        refl,
        λ who. (
          remaining_hashes-In channel identity rows who,
          In-remaining_hashes channel identity rows who,
        ),
      )
