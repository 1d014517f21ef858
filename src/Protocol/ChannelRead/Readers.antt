-- ===== src/Protocol/ChannelRead/Readers.antt =====
-- src/hokora/protocol/sync_utils.py: who may read a channel, and what a ban makes of it.
use hokora.Base.{
  ℕ, ◌⊎◌, ◌≡◌, refl, ◌∙◌, ap, true, false, Option, none, some, String, List, [], ◌∷◌, arith, inl,
  inr, Bool-cases, In, here,
}
use hokora.Base.Keys.{text_key}
use hokora.Result.{Result, ok, err}
use hokora.Dict.{Dict}
use hokora.Db.{AccessMode, public, write_restricted, private, Channel, Role, Tables}
use hokora.Db.Roles.{get_identity_roles}
use hokora.Db.Messages.{find_channel}
use hokora.Security.Ban.{is_blocked, record_ban_rejection, ban, is_owner}
use hokora.Security.Ban.Effects.{is_blocked-ban}
use hokora.Security.Permissions.Lookup.{Because, roles_of-Because, roles_of-In}
use hokora.Protocol.ChannelRead.{
  ReadError, banned, is_same, read_with, read_private, read_mode, check_channel_read,
}

-- A role on the channel itself; one on the whole node does not count.
abbrev pub IsReader : Option ℕ → Tables → ℕ → ℕ → Type 0
IsReader node_owner t channel who =
    (node_owner ≡ some who)
    ⊎ (role : Role) × Because t.roles who (some channel) true t.assignments role

-- Everyone may read a channel that is not private.
abbrev pub MayRead : AccessMode → Option ℕ → Tables → ℕ → Option ℕ → Type 0
MayRead public node_owner t channel requester = Unit {0}
MayRead write_restricted node_owner t channel requester = Unit {0}
MayRead private node_owner t channel none = ⊥
MayRead private node_owner t channel (some who) = IsReader node_owner t channel who

read_with-In :
    (roles : List Role) (channel : Channel)
    → read_with roles channel ≡ ok channel
    → (role : Role) × In role roles
read_with-In [] channel h = absurd (cc)
read_with-In (role ∷ roles) channel h = (role, here)

In-read_with :
    (roles : List Role) (channel : Channel) {role : Role}
    → In role roles
    → read_with roles channel ≡ ok channel
In-read_with [] channel i = elim i [ ]
In-read_with (role ∷ roles) channel i = refl

is_same-some :
    (node_owner : Option ℕ) (who : ℕ) → is_same node_owner who ≡ true → node_owner ≡ some who
is_same-some none who h = absurd (cc)
is_same-some (some owner) who h = ground arith

private-IsReader :
    (node_owner : Option ℕ) (t : Tables) (channel : Channel) (who : ℕ)
    → read_private node_owner t channel (some who) ≡ ok channel
    → IsReader node_owner t channel.id who
unfolding get_identity_roles
private-IsReader node_owner t channel who h = elim (Bool-cases (is_same node_owner who)) [
  | inl e ↦ inl (is_same-some node_owner who e)
  | inr e ↦
      let found = read_with-In _ channel (rw e at h) in
      inr
        (found.0, roles_of-Because t.roles who (some channel.id) true t.assignments found.0 found.1)
]

IsReader-private :
    (node_owner : Option ℕ) (t : Tables) (channel : Channel) (who : ℕ)
    → IsReader node_owner t channel.id who
    → read_private node_owner t channel (some who) ≡ ok channel
unfolding get_identity_roles
IsReader-private node_owner t channel who (inl e) = rw e (ground arith)
IsReader-private node_owner t channel who (inr (role, b)) =
    let member =
      roles_of-In t.roles who (some channel.id) true t.assignments role b.row b.stands b.does_count
        b.is_role in
    elim (Bool-cases (is_same node_owner who)) [
      | inl e ↦ rw e refl
      | inr e ↦ rw e (In-read_with _ channel member)
    ]

mode-MayRead :
    (mode : AccessMode) (node_owner : Option ℕ) (t : Tables) (channel : Channel)
    (requester : Option ℕ)
    → (read_mode mode node_owner t channel requester ≡ ok channel
        → MayRead mode node_owner t channel.id requester)
      × (MayRead mode node_owner t channel.id requester
          → read_mode mode node_owner t channel requester ≡ ok channel)
mode-MayRead public node_owner t channel requester = (λ h. tt, λ h. refl)
mode-MayRead write_restricted node_owner t channel requester = (λ h. tt, λ h. refl)
mode-MayRead private node_owner t channel none = (λ h. absurd (cc), λ h. absurd h)
mode-MayRead private node_owner t channel (some who) =
    (private-IsReader node_owner t channel who, IsReader-private node_owner t channel who)

module _ (channels : List Channel) (node_owner : Option ℕ) (t : Tables) (id : ℕ) (channel : Channel)
    (requester : Option ℕ) (counts : Dict String ℕ)
    (loaded : find_channel id channels ≡ some channel) where
  -- A channel that is loaded is returned to exactly those who are not banned and, if it is private,
  -- own the node or have a role on the channel itself; a banned identity is refused whatever the
  -- access mode, and the refusal is counted.
  pub check_channel_read_lem :
      let result = check_channel_read channels node_owner t id requester counts in
      (result.0 ≡ ok channel
        → (is_blocked t requester ≡ false)
          × MayRead channel.access_mode node_owner t channel.id requester)
      × (is_blocked t requester ≡ false
          → MayRead channel.access_mode node_owner t channel.id requester
          → result ≡ (ok channel, counts))
      × (is_blocked t requester ≡ true
          → result ≡ (err banned, record_ban_rejection counts "sync_read"))
  unfolding check_channel_read
  check_channel_read_lem =
      let m = mode-MayRead channel.access_mode node_owner t channel requester in
      elim (Bool-cases (is_blocked t requester)) [
        | inl e ↦ rw (loaded, e) (λ h. absurd (cc), λ h. absurd (cc), λ h. refl)
        | inr e ↦
            rw (loaded, e)
              (
                λ h. (refl, m.0 h),
                λ h r. ap (λ (x : Result ReadError Channel). (x, counts)) (m.1 r),
                λ h. absurd (cc),
              )
      ]

-- Once an identity that does not own the node is banned, every read of a loaded channel, of any
-- access mode, is refused to it, whatever roles it has.
pub ban-closes_channels :
    (channels : List Channel) (node_owner : Option ℕ) (t : Tables) (target actor now id : ℕ)
    (channel : Channel) (counts : Dict String ℕ)
    → find_channel id channels ≡ some channel
    → is_owner node_owner target ≡ false
    → check_channel_read channels node_owner
        (ban node_owner t (some target) actor now).1
        id
        (some target)
        counts
      ≡ (err banned, record_ban_rejection counts "sync_read")
ban-closes_channels channels node_owner t target actor now id channel counts loaded other =
    let t' = (ban node_owner t (some target) actor now).1 in
    (check_channel_read_lem channels node_owner t' id channel (some target) counts loaded).2
      (is_blocked-ban node_owner t target actor now target other ∙ ground arith)
