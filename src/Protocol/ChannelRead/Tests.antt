-- ===== src/Protocol/ChannelRead/Tests.antt =====
-- Reads of the sample channels.
use hokora.Base.{◌≡◌, refl, true, false, some, []}
use hokora.Base.Keys.{text_key}
use hokora.Result.{ok, err}
use hokora.Db.Roles.{get_identity_roles}
use hokora.Db.Messages.{find_channel}
use hokora.Samples.{lobby, vault, sample}
use hokora.Security.Ban.{is_blocked, record_ban_rejection, ban}
use hokora.Protocol.ChannelRead.{banned, not_a_member, check_channel_read}
use hokora.Protocol.ChannelRead.Readers.{MayRead, check_channel_read_lem, ban-closes_channels}

stranger_stays_out :
    (check_channel_read sample.channels (some 1) sample 7 (some 12) []).0 ≡ err not_a_member
unfolding check_channel_read find_channel is_blocked get_identity_roles
stranger_stays_out = refl

check_channel_read_lem_example :
    let result = check_channel_read sample.channels (some 1) sample 7 (some 11) [] in
    (result.0 ≡ ok vault
      → (is_blocked sample (some 11) ≡ false)
        × MayRead vault.access_mode (some 1) sample vault.id (some 11))
    × (is_blocked sample (some 11) ≡ false
        → MayRead vault.access_mode (some 1) sample vault.id (some 11)
        → result ≡ (ok vault, []))
    × (is_blocked sample (some 11) ≡ true
        → result ≡ (err banned, record_ban_rejection [] "sync_read"))
check_channel_read_lem_example =
    check_channel_read_lem sample.channels (some 1) sample 7 vault (some 11) []
      (unfold find_channel in refl)

ban-closes_channels_example :
    check_channel_read sample.channels
      (some 1)
      (ban (some 1) sample (some 11) 1 500).1
      5
      (some 11)
      []
    ≡ (err banned, record_ban_rejection [] "sync_read")
ban-closes_channels_example =
    ban-closes_channels sample.channels (some 1) sample 11 1 500 5 lobby []
      (unfold find_channel in refl) refl
