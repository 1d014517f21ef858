-- ===== src/Security/Ban/Tests.antt =====
-- Bans on the sample tables.
use hokora.Base.{ℕ, ◌≡◌, ◌≢◌, refl, true, false, some}
use hokora.Result.{err}
use hokora.Db.{Tables}
use hokora.Db.Identities.{upsert, log}
use hokora.Samples.{sample}
use hokora.Security.Ban.{
  is_node_owner, is_blocked_identity, is_blocked, check_not_blocked, ban, unban,
}
use hokora.Security.Ban.Effects.{
  NonePending, ban-blocks, unmoderated, banned, unbanned, Moderated-owner, unban-ban,
}

-- The owner is node 1.
abbrev after_ban : Tables
after_ban = (ban (some 1) sample (some 11) 1 500).1

owner_is_safe : (ban (some 1) sample (some 1) 1 500).0 ≡ err is_node_owner
unfolding ban
owner_is_safe = refl

one_banned : is_blocked after_ban (some 11) ≡ true
unfolding is_blocked ban log upsert
one_banned = refl

ban-blocks_at_input :
    ((ban (some 1) sample (some 11) 1 500).0 ≢ err is_node_owner)
    × (check_not_blocked after_ban (some 11) ≡ err is_blocked_identity)
    × NonePending 11 after_ban.pending
    × ((who : ℕ) → who ≢ 11 → is_blocked after_ban (some who) ≡ is_blocked sample (some who))
ban-blocks_at_input = ban-blocks (some 1) sample 11 1 500 refl

unban-ban_for_bystander :
    is_blocked (unban after_ban (some 11) 1).1 (some 12) ≡ is_blocked sample (some 12)
unban-ban_for_bystander = unban-ban (some 1) sample 11 1 1 500 12 refl

Moderated-owner_example :
    is_blocked (unban (ban (some 1) after_ban (some 1) 11 600).1 (some 11) 1).1 (some 1) ≡ false
Moderated-owner_example =
    Moderated-owner 1
      (unbanned (some 11) 1
        (banned (some 1) 11 600 (banned (some 11) 1 500 (unmoderated {t = sample}))))
      (unfold is_blocked in refl)
