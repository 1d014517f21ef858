-- ===== src/Protocol/ChannelRead.antt =====
-- src/hokora/protocol/sync_utils.py: the gate that reads of a channel pass, with the bans and the
-- role tables behind it. The channels are those that the channel manager has loaded.
pub mod Readers
mod Tests
use hokora.Base.{
  ℕ, Bool, true, false, Option, none, some, String, List, [], ◌∷◌, ◌==◌, if◌then◌else◌,
}
use hokora.Base.Keys.{text_key}
use hokora.Result.{Result, ok, err}
use hokora.Dict.{Dict}
use hokora.Db.{AccessMode, public, write_restricted, private, Channel, Role, Tables}
use hokora.Db.Roles.{get_identity_roles}
use hokora.Db.Messages.{find_channel}
use hokora.Security.Ban.{is_blocked, record_ban_rejection}

pub data ReadError : Type 0 where
  channel_not_found banned not_authenticated not_a_member : ReadError

abbrev pub is_same : Option ℕ → ℕ → Bool
is_same none who = false
is_same (some owner) who = who == owner

abbrev pub read_with : List Role → Channel → Result ReadError Channel
read_with [] channel = err not_a_member
read_with (role ∷ roles) channel = ok channel

abbrev pub read_private : Option ℕ → Tables → Channel → Option ℕ → Result ReadError Channel
read_private node_owner t channel none = err not_authenticated
read_private node_owner t channel (some who) =
    if is_same node_owner who
    then ok channel
    else read_with (get_identity_roles t who (some channel.id) true) channel

abbrev pub read_mode :
    AccessMode → Option ℕ → Tables → Channel → Option ℕ → Result ReadError Channel
read_mode public node_owner t channel requester = ok channel
read_mode write_restricted node_owner t channel requester = ok channel
read_mode private node_owner t channel requester = read_private node_owner t channel requester

abbrev pub read_if_found :
    Option ℕ
    → Tables
    → Option Channel
    → Option ℕ
    → Dict String ℕ
    → Result ReadError Channel × Dict String ℕ
read_if_found node_owner t none requester counts = (err channel_not_found, counts)
read_if_found node_owner t (some channel) requester counts =
    if is_blocked t requester
    then (err banned, record_ban_rejection counts "sync_read")
    else (read_mode channel.access_mode node_owner t channel requester, counts)

-- `node_owner` is the owner that the permission resolver knows, if there is a resolver. The counts
-- are those of the refusals of banned identities.
unfoldable pub check_channel_read :
    List Channel
    → Option ℕ
    → Tables
    → ℕ
    → Option ℕ
    → Dict String ℕ
    → Result ReadError Channel × Dict String ℕ
check_channel_read channels node_owner t channel requester counts =
    read_if_found node_owner t (find_channel channel channels) requester counts
