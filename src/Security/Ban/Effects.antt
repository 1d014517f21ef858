-- ===== src/Security/Ban/Effects.antt =====
-- src/hokora/security/ban.py: what a ban and its removal change.
use hokora.Base.{
  ℕ, ◌≡◌, ◌≢◌, refl, ◌∙◌, ap, true, false, Option, none, some, List, [], ◌∷◌, arith, ◌==◌,
  if◌then◌else◌, inl, inr, Bool-cases, Option-cases,
}
use hokora.Result.{err}
use hokora.Db.{Identity, PendingSealedDistribution, Tables}
use hokora.Db.Identities.{
  find_identity, get_by_hash, flag, upsert_identity, blank_identity, upsert, log,
}
use hokora.Db.Identities
use hokora.Security.Ban.{
  is_node_owner, is_blocked_identity, is_blocked, check_not_blocked, drop_pending, blocked_row,
  is_owner, ban_target, ban, unblocked_row, change_identity, unban,
}

module _ (identity actor now : ℕ) where
  blocked_rows :
      (wanted : ℕ) (rows : List Identity)
      → flag (
          find_identity wanted (
            upsert_identity identity
              (blocked_row actor now)
              (blank_identity identity now)
              now
              rows))
        ≡ (if wanted == identity then true else flag (find_identity wanted rows))
  unfolding find_identity upsert_identity
  blocked_rows wanted [] = ground arith
  blocked_rows wanted (row ∷ rows) = ground (arith, blocked_rows wanted rows)

unblocked_rows :
    (identity wanted : ℕ) (rows : List Identity)
    → flag (find_identity wanted (change_identity identity unblocked_row rows))
      ≡ (if wanted == identity then false else flag (find_identity wanted rows))
unfolding find_identity change_identity
unblocked_rows identity wanted [] = ground arith
unblocked_rows identity wanted (row ∷ rows) = ground (arith, unblocked_rows identity wanted rows)

-- No queued key is meant for the identity.
abbrev pub NonePending : ℕ → List PendingSealedDistribution → Type 0
NonePending target [] = Unit {0}
NonePending target (row ∷ rows) = (row.identity_hash ≢ target) × NonePending target rows

drop_pending-NonePending :
    (target : ℕ) (rows : List PendingSealedDistribution)
    → NonePending target (drop_pending target rows).0
unfolding drop_pending
drop_pending-NonePending target [] = tt
drop_pending-NonePending target (row ∷ rows) =
    let rest = drop_pending-NonePending target rows in
    elim (Bool-cases (row.identity_hash == target)) [
      | inl e ↦ rw e rest
      | inr e ↦ rw e (λ p. absurd (ground arith), rest)
    ]

is_blocked-ban_target :
    (t : Tables) (target actor now who : ℕ)
    → is_blocked (ban_target t target actor now).1 (some who)
      ≡ (if who == target then true else is_blocked t (some who))
unfolding is_blocked log upsert get_by_hash Identities.is_blocked
is_blocked-ban_target t target actor now who = blocked_rows target actor now who t.identities

pub is_blocked-ban :
    (node_owner : Option ℕ) (t : Tables) (target actor now who : ℕ)
    → is_owner node_owner target ≡ false
    → is_blocked (ban node_owner t (some target) actor now).1 (some who)
      ≡ (if who == target then true else is_blocked t (some who))
unfolding ban
is_blocked-ban node_owner t target actor now who other =
    rw other (is_blocked-ban_target t target actor now who)

check_refuses :
    (t : Tables) (who : Option ℕ)
    → is_blocked t who ≡ true
    → check_not_blocked t who ≡ err is_blocked_identity
unfolding check_not_blocked
check_refuses t who h = rw h refl

-- A ban of an identity that does not own the node is not refused as a ban of the owner is. After
-- it the gate refuses the identity, no sealed key is queued for it, and everyone else is as
-- blocked as before.
pub ban-blocks :
    (node_owner : Option ℕ) (t : Tables) (target actor now : ℕ)
    → is_owner node_owner target ≡ false
    → let (result, t') = ban node_owner t (some target) actor now in
      (result ≢ err is_node_owner)
      × (check_not_blocked t' (some target) ≡ err is_blocked_identity)
      × NonePending target t'.pending
      × ((who : ℕ) → who ≢ target → is_blocked t' (some who) ≡ is_blocked t (some who))
unfolding ban log upsert
ban-blocks node_owner t target actor now other =
    let after = is_blocked-ban_target t target actor now in
    rw other (
      λ e. cc,
      check_refuses _ _ (after target ∙ ground arith),
      drop_pending-NonePending target t.pending,
      λ who n. after who ∙ ground arith,
    )

missing :
    (identity who : ℕ) (rows : List Identity)
    → find_identity identity rows ≡ none
    → flag (find_identity who rows)
      ≡ (if who == identity then false else flag (find_identity who rows))
unfolding find_identity
missing identity who [] h = ground arith
missing identity who (row ∷ rows) h = ground (arith, missing identity who rows)

is_blocked-unban :
    (t : Tables) (target actor who : ℕ)
    → is_blocked (unban t (some target) actor).1 (some who)
      ≡ (if who == target then false else is_blocked t (some who))
unfolding unban is_blocked log get_by_hash Identities.is_blocked
is_blocked-unban t target actor who = elim (Option-cases (find_identity target t.identities)) [
  | inl e ↦ rw e (ground (arith, missing target who t.identities))
  | inr (found, e) ↦ rw e (unblocked_rows target who t.identities)
]

-- A ban that is taken back leaves its target unblocked and everyone else as before.
pub unban-ban :
    (node_owner : Option ℕ) (t : Tables) (target actor actor' now : ℕ) (who : ℕ)
    → is_owner node_owner target ≡ false
    → is_blocked
        (unban (ban node_owner t (some target) actor now).1 (some target) actor').1
        (some who)
      ≡ (if who == target then false else is_blocked t (some who))
unfolding ban
unban-ban node_owner t target actor actor' now who other =
    let t' = (ban_target t target actor now).1 in
    rw other (
      ground (
        arith,
        is_blocked-unban t' target actor' who,
        is_blocked-ban_target t target actor now who,
      ))

unban_empty : (t : Tables) (actor : ℕ) → (unban t none actor).1 ≡ t
unfolding unban
unban_empty t actor = refl

-- What an operator's calls make of the tables.
pub data Moderated (node_owner : Option ℕ) : Tables → Tables → Type 0 where
  unmoderated : {t : Tables} → Moderated node_owner t t
  banned :
      {t u : Tables} (target : Option ℕ) (actor now : ℕ)
      → Moderated node_owner t u
      → Moderated node_owner t (ban node_owner u target actor now).1
  unbanned :
      {t u : Tables} (target : Option ℕ) (actor : ℕ)
      → Moderated node_owner t u
      → Moderated node_owner t (unban u target actor).1

-- However identities are banned and unbanned by a manager that knows the node's owner, the owner
-- is never blocked, if it was not at first.
pub Moderated-owner :
    (owner : ℕ) {t u : Tables}
    → Moderated (some owner) t u
    → is_blocked t (some owner) ≡ false
    → is_blocked u (some owner) ≡ false
unfolding ban
Moderated-owner owner unmoderated h = h
Moderated-owner owner (banned {u = u} none actor now m) h = Moderated-owner owner m h
Moderated-owner owner (banned {u = u} (some target) actor now m) h =
    let before = Moderated-owner owner m h in
    elim (Bool-cases (target == owner)) [
      | inl e ↦ rw e before
      | inr e ↦ rw e (is_blocked-ban_target u target actor now owner ∙ ground (arith, before))
    ]
Moderated-owner owner (unbanned {u = u} none actor m) h =
    ap (λ (x : Tables). is_blocked x (some owner)) (unban_empty u actor) ∙ Moderated-owner owner m h
Moderated-owner owner (unbanned {u = u} (some target) actor m) h =
    let before = Moderated-owner owner m h in
    is_blocked-unban u target actor owner ∙ ground (arith, before)
