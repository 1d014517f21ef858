-- ===== src/Samples.antt =====
-- Sample tables that the tests share: three channels, two roles, one member and some messages.
use hokora.Base.{true, false, none, some, [], ◌∷◌}
use hokora.Db.{
  public, write_restricted, private, Channel, Role, RoleAssignment, ChannelOverride, Message,
  Tables,
}
use hokora.Security.Permissions.{perm_everyone_default, role_everyone}

abbrev pub lobby : Channel
lobby = record {
  id = 5;
  name = "lobby";
  access_mode = public;
  slowmode = 0;
  latest_seq = 1;
  sealed = false;
}

abbrev pub news : Channel
news = record {
  id = 6;
  name = "news";
  access_mode = write_restricted;
  slowmode = 0;
  latest_seq = 0;
  sealed = false;
}

abbrev pub vault : Channel
vault = record {
  id = 7;
  name = "vault";
  access_mode = private;
  slowmode = 0;
  latest_seq = 0;
  sealed = true;
}

abbrev pub everyone : Role
everyone = record {
  id = 1;
  name = role_everyone;
  permissions = perm_everyone_default;
  position = 0;
  is_builtin = true;
}

-- May delete and pin what others wrote.
abbrev pub moderator : Role
moderator = record {
  id = 3;
  name = "moderator";
  permissions = 0x0300;
  position = 10;
  is_builtin = false;
}

-- Identity 11 moderates the lobby and the vault; 12 has no role; 1 owns the node.
abbrev pub in_lobby : RoleAssignment
in_lobby = record { role_id = 3; identity_hash = 11; channel_id = some 5; assigned_by = none }

abbrev pub in_vault : RoleAssignment
in_vault = record { role_id = 3; identity_hash = 11; channel_id = some 7; assigned_by = none }

abbrev pub in_vault_too : RoleAssignment
in_vault_too = record { role_id = 3; identity_hash = 13; channel_id = some 7; assigned_by = none }

-- Moderators may not delete in the lobby.
abbrev pub no_deleting : ChannelOverride
no_deleting = record { channel_id = 5; role_id = 3; allow = 0; deny = 0x0100 }

abbrev pub greeting : Message
greeting = record {
  msg_hash = 900;
  channel_id = 5;
  sender_hash = some 12;
  seq = some 1;
  thread_seq = none;
  timestamp = 50;
  type = 1;
  body = some (104 ∷ 105 ∷ []);
  media_path = none;
  reply_to = none;
  ttl = none;
  received_at = 51;
  deleted = false;
  deleted_by = none;
  pinned = false;
  pinned_at = none;
  edit_chain = [];
  reactions = [];
  display_name = none;
  mentions = [];
  origin_node = none;
  encrypted_body = none;
  encryption_nonce = none;
  encryption_epoch = none;
}

abbrev pub sample : Tables
sample = record {
  channels = lobby ∷ news ∷ vault ∷ [];
  identities = [];
  roles = everyone ∷ moderator ∷ [];
  assignments = in_lobby ∷ in_vault ∷ in_vault_too ∷ [];
  overrides = no_deleting ∷ [];
  pending = [];
  audit = [];
  messages = greeting ∷ [];
  threads = [];
}
