-- ===== src/Core/MirrorManager/Tests.antt =====
-- Two peers that mirror one channel.
use hokora.Base.{ℕ, ◌≡◌, ◌≢◌, refl, some, [], ◌∷◌}
use hokora.Base.Keys.{number_key}
use hokora.Dict.{insert, lookup}
use hokora.Core.MirrorManager.{
  PeerRow, mirrors_channel, with_cursor, persist_cursor, persist_push_cursor, has_key,
  load_channels, load_configured_mirrors,
}
use hokora.Core.MirrorManager.Cursors.{find_peer, first_mirroring, persist_cursor_lem}

abbrev one : PeerRow
one = record {
  identity_hash = 21;
  channels_mirrored = 5 ∷ [];
  mirror_cursors = (5, 10) ∷ [];
  push_cursors = [];
}

abbrev two : PeerRow
two = record {
  identity_hash = 22;
  channels_mirrored = 5 ∷ [];
  mirror_cursors = (5, 90) ∷ [];
  push_cursors = [];
}

-- The mirror of peer 22 saves 91; peer 21 is the one that starts there next time.
cursors_mixed :
    load_configured_mirrors [] (persist_push_cursor 22 5 3 (persist_cursor 5 91 (one ∷ two ∷ [])))
    ≡ record { peer = 21; channel = 5; initial_cursor = 91; push_cursor = 0 }
      ∷ record { peer = 22; channel = 5; initial_cursor = 90; push_cursor = 3 }
      ∷ []
unfolding load_configured_mirrors load_channels has_key persist_push_cursor persist_cursor
    mirrors_channel insert lookup
cursors_mixed = refl

persist_cursor_lem_example :
    (first_mirroring 5 (persist_cursor 5 91 (one ∷ two ∷ [])) ≡ some (with_cursor 5 91 one))
    × ((peer : ℕ)
        → 21 ≢ peer
        → find_peer peer (persist_cursor 5 91 (one ∷ two ∷ [])) ≡ find_peer peer (one ∷ two ∷ []))
persist_cursor_lem_example =
    persist_cursor_lem 5 91 (one ∷ two ∷ []) one (unfold first_mirroring mirrors_channel in refl)
