-- ===== src/Core/MirrorManager/Cursors.antt =====
-- src/hokora/core/mirror_manager.py: which cursors are saved.
use hokora.Base.{
  ℕ, ◌≡◌, ◌≢◌, refl, ap, false, Option, none, some, List, [], ◌∷◌, ◌==◌, inl, inr, Bool-cases,
  some_inj, arith, if◌then◌else◌,
}
use hokora.Base.Keys.{number_key}
use hokora.Core.MirrorManager.{PeerRow, mirrors_channel, with_cursor, persist_cursor}

-- The row of a peer.
unfoldable pub find_peer : ℕ → List PeerRow → Option PeerRow
find_peer peer [] = none
find_peer peer (row ∷ rows) = if row.identity_hash == peer then some row else find_peer peer rows

-- The first row that mirrors a channel.
unfoldable pub first_mirroring : ℕ → List PeerRow → Option PeerRow
first_mirroring channel [] = none
first_mirroring channel (row ∷ rows) =
    if mirrors_channel channel row.channels_mirrored then some row else first_mirroring channel rows

saved_for_first :
    (channel cursor : ℕ) (rows : List PeerRow) (first : PeerRow)
    → first_mirroring channel rows ≡ some first
    → first_mirroring channel (persist_cursor channel cursor rows)
      ≡ some (with_cursor channel cursor first)
unfolding first_mirroring persist_cursor
saved_for_first channel cursor [] first h = absurd (cc)
saved_for_first channel cursor (row ∷ rows) first h =
    elim (Bool-cases (mirrors_channel channel row.channels_mirrored)) [
      | inl mirrors ↦
          let same : row ≡ first = some_inj (rw mirrors at h) in
          rw (mirrors, mirrors) (ap (λ (r : PeerRow). some (with_cursor channel cursor r)) same)
      | inr passed ↦
          let h' : first_mirroring channel rows ≡ some first = rw passed at h in
          rw (passed, passed) (saved_for_first channel cursor rows first h')
    ]

others_unchanged :
    (channel cursor peer : ℕ) (rows : List PeerRow) (first : PeerRow)
    → first_mirroring channel rows ≡ some first
    → first.identity_hash ≢ peer
    → find_peer peer (persist_cursor channel cursor rows) ≡ find_peer peer rows
unfolding first_mirroring persist_cursor find_peer
others_unchanged channel cursor peer [] first h n = refl
others_unchanged channel cursor peer (row ∷ rows) first h n =
    elim (Bool-cases (mirrors_channel channel row.channels_mirrored)) [
      | inl mirrors ↦
          let same : row ≡ first = some_inj (rw mirrors at h) in
          let other : (row.identity_hash == peer) ≡ false =
            ground (arith, ap (λ (r : PeerRow). r.identity_hash) same, n) in
          rw (mirrors, other) refl
      | inr passed ↦
          let h' : first_mirroring channel rows ≡ some first = rw passed at h in
          rw passed (
            ap (λ (rest : Option PeerRow). if row.identity_hash == peer then some row else rest)
              (others_unchanged channel cursor peer rows first h' n))
    ]

-- The cursor that a mirror of a channel saves goes to the first peer in the table that mirrors the
-- channel, whichever peer the mirror is of; the row of every other peer, also one that mirrors the
-- same channel, stays as it was.
pub persist_cursor_lem :
    (channel cursor : ℕ) (rows : List PeerRow) (first : PeerRow)
    → first_mirroring channel rows ≡ some first
    → (first_mirroring channel (persist_cursor channel cursor rows)
        ≡ some (with_cursor channel cursor first))
      × ((peer : ℕ)
          → first.identity_hash ≢ peer
          → find_peer peer (persist_cursor channel cursor rows) ≡ find_peer peer rows)
persist_cursor_lem channel cursor rows first h = (
  saved_for_first channel cursor rows first h,
  λ peer n. others_unchanged channel cursor peer rows first h n,
)
