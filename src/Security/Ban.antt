-- ===== src/Security/Ban.antt =====
-- src/hokora/security/ban.py: the gate that every surface asks, and the bans themselves. The reason
-- that an operator gives goes into the audit log and nowhere else, and is left out.
pub mod Effects
mod Tests
use hokora.Base.{
  ℕ, ◌+◌, Bool, true, false, not, ◌&&◌, ◌||◌, Option, none, some, String, List, [], ◌∷◌, leb, ltb,
  ◌==◌, if◌then◌else◌,
}
use hokora.Base.Keys.{◌≟◌, text_key}
use hokora.Result.{Result, ok, err}
use hokora.Dict.{Dict, insert, lookup_or}
use hokora.Db.{Channel, Identity, RoleAssignment, PendingSealedDistribution, Tables}
use hokora.Db.Identities.{find_identity, get_by_hash, flag, upsert, log}
use hokora.Db.Identities
use hokora.Db.Messages.{find_channel}

pub data BanError : Type 0 where
  no_target is_node_owner is_blocked_identity : BanError

-- `_BAN_REJECTIONS[surface] = _BAN_REJECTIONS.get(surface, 0) + 1`
unfoldable pub record_ban_rejection : Dict String ℕ → String → Dict String ℕ
record_ban_rejection counts surface = insert surface (lookup_or surface 0 counts + 1) counts

unfoldable pub is_blocked : Tables → Option ℕ → Bool
unfolding Identities.is_blocked
is_blocked t none = false
is_blocked t (some identity) = Identities.is_blocked t identity

unfoldable pub check_not_blocked : Tables → Option ℕ → Result BanError (Unit {0})
unfolding is_blocked
check_not_blocked t identity = if is_blocked t identity then err is_blocked_identity else ok tt

pub record BanResult : Type 0 where
  pub target : ℕ
  pub already_blocked : Bool
  pub sealed_channels : List (ℕ × String)
  pub pending_dropped : ℕ

pub record UnbanResult : Type 0 where
  pub target : ℕ
  pub was_blocked : Bool

abbrev pub is_listed : ℕ → String → List (ℕ × String) → Bool
is_listed id name [] = false
is_listed id name ((i, n) ∷ rest) = (i == id && n ≟ name) || is_listed id name rest

abbrev pub list_if_sealed : Option Channel → List (ℕ × String) → List (ℕ × String)
list_if_sealed none rest = rest
list_if_sealed (some ch) rest =
    if ch.sealed && not (is_listed ch.id ch.name rest) then (ch.id, ch.name) ∷ rest else rest

abbrev pub list_if_on : Option ℕ → List Channel → List (ℕ × String) → List (ℕ × String)
list_if_on none channels rest = rest
list_if_on (some c) channels rest = list_if_sealed (find_channel c channels) rest

-- The sealed channels on which the target has a role, each once.
unfoldable pub sealed_channels_of : ℕ → List Channel → List RoleAssignment → List (ℕ × String)
sealed_channels_of target channels [] = []
sealed_channels_of target channels (row ∷ rows) =
    let rest = sealed_channels_of target channels rows in
    if row.identity_hash == target then list_if_on row.channel_id channels rest else rest

unfoldable pub drop_pending :
    ℕ → List PendingSealedDistribution → List PendingSealedDistribution × ℕ
drop_pending target [] = ([], 0)
drop_pending target (row ∷ rows) =
    let (kept, dropped) = drop_pending target rows in
    if row.identity_hash == target then (kept, dropped + 1) else (row ∷ kept, dropped)

abbrev pub blocked_row : ℕ → ℕ → Identity → Identity
blocked_row actor now row = record row {
  blocked = true;
  blocked_at = some now;
  blocked_by = some actor;
}

abbrev pub is_owner : Option ℕ → ℕ → Bool
is_owner none target = false
is_owner (some owner) target = target == owner

abbrev pub without_pending : Tables → ℕ → Tables
without_pending t target = record t { pending = (drop_pending target t.pending).0 }

abbrev pub ban_target : Tables → ℕ → ℕ → ℕ → Result BanError BanResult × Tables
ban_target t target actor now = (
  ok (record {
    target = target;
    already_blocked = flag (get_by_hash t target);
    sealed_channels = sealed_channels_of target t.channels t.assignments;
    pending_dropped = (drop_pending target t.pending).1;
  }),
  log (without_pending (upsert t target (blocked_row actor now) now) target) actor "identity_ban"
      target none,
)

unfoldable pub ban : Option ℕ → Tables → Option ℕ → ℕ → ℕ → Result BanError BanResult × Tables
ban node_owner t none actor now = (err no_target, t)
ban node_owner t (some target) actor now =
    if is_owner node_owner target then (err is_node_owner, t) else ban_target t target actor now

abbrev pub unblocked_row : Identity → Identity
unblocked_row row = record row { blocked = false; blocked_at = none; blocked_by = none }

-- The row of a hash with its fields set.
unfoldable pub change_identity : ℕ → (Identity → Identity) → List Identity → List Identity
change_identity identity fields [] = []
change_identity identity fields (row ∷ rows) =
    let rest = change_identity identity fields rows in
    if row.hash == identity then fields row ∷ rows else row ∷ rest

abbrev pub unban_found : Tables → Option Identity → ℕ → ℕ → Result BanError UnbanResult × Tables
unban_found t none target actor = (ok (record { target = target; was_blocked = false }), t)
unban_found t (some found) target actor = (
  ok (record { target = target; was_blocked = found.blocked }),
  log (record t { identities = change_identity target unblocked_row t.identities }) actor
      "identity_unban" target none,
)

unfoldable pub unban : Tables → Option ℕ → ℕ → Result BanError UnbanResult × Tables
unban t none actor = (err no_target, t)
unban t (some target) actor = unban_found t (get_by_hash t target) target actor

-- The newest ban first; a row without a time stands last.
abbrev pub is_later : Option ℕ → Option ℕ → Bool
is_later none b = false
is_later (some a) none = true
is_later (some a) (some b) = leb b a

unfoldable pub insert_banned : Identity → List Identity → List Identity
insert_banned row [] = row ∷ []
insert_banned row (x ∷ xs) =
    let rest = insert_banned row xs in
    if is_later row.blocked_at x.blocked_at then row ∷ x ∷ xs else x ∷ rest

unfoldable pub list_rows : List Identity → List Identity
list_rows [] = []
list_rows (row ∷ rows) =
    let rest = list_rows rows in if row.blocked then insert_banned row rest else rest

unfoldable pub list_banned : Tables → List Identity
unfolding list_rows
list_banned t = list_rows t.identities
