-- ===== src/Db.antt =====
-- The rows of src/hokora/db/models.py that permissions, bans and messages work on, and the tables
-- they stand in. A table is the list of its rows. Texts, times and hashes are numbers, an empty
-- text is `none`.
pub mod Identities
pub mod Roles
pub mod Messages
use hokora.Base.{ℕ, Bool, Option, String, List}
use hokora.Bytes.{Bytes}
use hokora.Text.{Text}
use hokora.Dict.{Dict}

-- Any other text in the column is treated like `public`.
pub data AccessMode : Type 0 where
  public write_restricted private : AccessMode

pub record Channel : Type 0 where
  pub id : ℕ
  pub name : String
  pub access_mode : AccessMode
  pub slowmode : ℕ
  pub latest_seq : ℕ
  pub sealed : Bool

pub record Identity : Type 0 where
  pub hash : ℕ
  pub public_key : Option ℕ
  pub last_seen : ℕ
  pub blocked : Bool
  pub blocked_at : Option ℕ
  pub blocked_by : Option ℕ

pub record Role : Type 0 where
  pub id : ℕ
  pub name : String
  pub permissions : ℕ
  pub position : ℕ
  pub is_builtin : Bool

pub record RoleAssignment : Type 0 where
  pub role_id : ℕ
  pub identity_hash : ℕ
  pub channel_id : Option ℕ
  pub assigned_by : Option ℕ

pub record ChannelOverride : Type 0 where
  pub channel_id : ℕ
  pub role_id : ℕ
  pub allow : ℕ
  pub deny : ℕ

pub record PendingSealedDistribution : Type 0 where
  pub channel_id : ℕ
  pub identity_hash : ℕ
  pub role_id : ℕ

pub record AuditLog : Type 0 where
  pub actor : ℕ
  pub action_type : String
  pub target : ℕ
  pub channel_id : Option ℕ

-- `{"count": …, "identities": […]}`
pub record Reaction : Type 0 where
  pub count : ℕ
  pub identities : List ℕ

pub record Message : Type 0 where
  pub msg_hash : ℕ
  pub channel_id : ℕ
  pub sender_hash : Option ℕ
  pub seq : Option ℕ
  pub thread_seq : Option ℕ
  pub timestamp : ℕ
  pub type : ℕ
  pub body : Option Text
  pub media_path : Option ℕ
  pub reply_to : Option ℕ
  pub ttl : Option ℕ
  pub received_at : ℕ
  pub deleted : Bool
  pub deleted_by : Option ℕ
  pub pinned : Bool
  pub pinned_at : Option ℕ
  pub edit_chain : List ℕ
  pub reactions : Dict Text Reaction
  pub display_name : Option Text
  pub mentions : List String
  pub origin_node : Option ℕ
  pub encrypted_body : Option Bytes
  pub encryption_nonce : Option Bytes
  pub encryption_epoch : Option ℕ

pub record Thread : Type 0 where
  pub root_msg_hash : ℕ
  pub channel_id : ℕ
  pub reply_count : ℕ
  pub latest_thread_seq : ℕ
  pub last_activity : ℕ
  pub participant_hashes : List ℕ

pub record Tables : Type 0 where
  pub channels : List Channel
  pub identities : List Identity
  pub roles : List Role
  pub assignments : List RoleAssignment
  pub overrides : List ChannelOverride
  pub pending : List PendingSealedDistribution
  pub audit : List AuditLog
  pub messages : List Message
  pub threads : List Thread
