-- ===== src/Protocol/Live/Tests.antt =====
-- Runs of the subscription manager.
use hokora.Base.{ℕ, ◌≡◌, refl, Bool, true, false, Option, none, some, [], ◌∷◌, map, ◌==◌, ◌||◌, ◌+◌}
use hokora.Base.Keys.{number_key}
use hokora.Dict.{lookup, insert, erase, contains}
use hokora.Protocol.ZombieLinkBuffer.{buffered, record_push, append_bounded, trim, drain}
use hokora.Protocol.Live.{
  LiveManager, new_manager, Links, Event, packet, resource, deferred, lxmf_batch, subscribe,
  open_channel, add_subscriber, get_subscribers, total_subscribers, unsubscribe_all, remove_link,
}
use hokora.Protocol.Live.Pushing.{
  push_event, push_message, capable_are, push_to_subscribers, push_each, push_one, clean_up,
  defer_for_dead_link, deferral, record_event, add_to_batch, handle_link_death,
}
use hokora.Protocol.Live.Batches.{flush_batches, flush_each, flush_one, fall_back}
use hokora.Protocol.Live.Death.{deferral_of, handle_link_death_lem, dead_batch_is_lost}
use hokora.Protocol.Live.Limits.{WithinLimits}
use hokora.Protocol.Live.Runs.{started, subscribed, died, Run-WithinLimits}
use hokora.Protocol.Live.Accounts.{Accounted, batch_of, push_event-Accounted}

-- A message event of three bytes.
abbrev message : Event
message = record { event_type = 0; payload = 1 ∷ 2 ∷ 3 ∷ []; data_dict = some 50 }

-- Link 1 is alive and sends, link 2 is alive and fails to send, every other link is dead.
abbrev some_links : Links
some_links = record {
  is_active = λ link. (link == 1) || (link == 2);
  sends = λ link. link == 1;
  mdu = 2;
}

-- Links 1, 2 and 3 of identities 11, 12 and 13 on channel 7; link 4 of 14 takes batches.
abbrev four_subscribers : LiveManager
four_subscribers = record (new_manager true) {
  subscriptions = (7, (1, 1) ∷ (2, 1) ∷ (3, 2) ∷ (4, 4) ∷ []) ∷ [];
  link_identities = (1, 11) ∷ (2, 12) ∷ (3, 13) ∷ (4, 14) ∷ [];
}

abbrev all_alive : Links
all_alive = record { is_active = λ _. true; sends = λ _. true; mdu = 2 }

pushed :
    (push_event some_links 20 four_subscribers 7 message).0
    ≡ resource 1 (1 ∷ 2 ∷ 3 ∷ [])
      ∷ deferred 12 7 0 50
      ∷ deferred 13 7 0 50
      ∷ deferred 14 7 0 50
      ∷ []
unfolding push_event push_to_subscribers push_each push_one get_subscribers lookup
    defer_for_dead_link deferral record_event
pushed = refl

-- The dead links leave, and link 1 stays.
after_push : get_subscribers (push_event some_links 20 four_subscribers 7 message).1 7 ≡ (1, 1) ∷ []
unfolding push_event push_to_subscribers push_each push_one get_subscribers lookup record_event
    clean_up unsubscribe_all remove_link erase
after_push = refl

push_event-Accounted_example :
    let (effects, m') = push_event some_links 20 four_subscribers 7 message in
    Accounted some_links 20 7 message 12 50 2 effects (batch_of m' 7 2)
push_event-Accounted_example =
    push_event-Accounted some_links 20 four_subscribers 7 message 2 1 12 50
      (unfold get_subscribers lookup in (refl, (refl, (refl, (refl, tt)))))
      (unfold get_subscribers lookup in refl) refl (unfold lookup in refl) refl refl

abbrev pushed_once : LiveManager
pushed_once = (push_event some_links 20 four_subscribers 7 message).1

known_one : lookup 1 pushed_once.link_identities ≡ some 11
unfolding push_event push_to_subscribers push_each push_one get_subscribers lookup record_event
    clean_up unsubscribe_all
known_one = refl

hooked_one : pushed_once.has_defer_hook ≡ true
unfolding push_event push_to_subscribers push_each push_one get_subscribers lookup record_event
    clean_up unsubscribe_all
hooked_one = refl

handle_link_death_example :
    let (effects, m') = handle_link_death pushed_once 1 in
    (effects ≡ map (deferral_of 11) (buffered pushed_once.push_buffer 1))
    × (buffered m'.push_buffer 1 ≡ [])
    × ((channel : ℕ) → lookup 1 (get_subscribers m' channel) ≡ none)
    × (lookup 1 m'.link_identities ≡ none)
handle_link_death_example = handle_link_death_lem pushed_once 1 11 hooked_one known_one

-- What was pushed to link 1 is deferred when it dies.
replayed : (handle_link_death pushed_once 1).0 ≡ deferred 11 7 0 50 ∷ []
unfolding handle_link_death push_event push_to_subscribers push_each push_one get_subscribers lookup
    record_event clean_up unsubscribe_all record_push append_bounded trim insert drain deferral
replayed = refl

abbrev batched : LiveManager
batched = (push_event all_alive 20 four_subscribers 7 message).1

abbrev some_fallback : Option (ℕ → Option ℕ)
some_fallback = some (λ identity. some (identity + 100))

dead_batch_is_lost_example :
    flush_one all_alive
      (λ _. [])
      some_fallback
      (handle_link_death batched 4).1
      7
      4
      ((1 ∷ [], 20) ∷ [])
    ≡ []
dead_batch_is_lost_example =
    dead_batch_is_lost all_alive (λ _. []) some_fallback batched 7 4 ((1 ∷ [], 20) ∷ [])

-- The same batch reaches a link that lives, and one that is inactive by store and forward.
flushed_alive :
    (flush_batches all_alive (λ _. 9 ∷ []) some_fallback batched).0 ≡ packet 4 (9 ∷ []) ∷ []
unfolding flush_batches flush_each flush_one push_event push_to_subscribers push_each push_one
    get_subscribers lookup record_event add_to_batch insert clean_up unsubscribe_all
flushed_alive = refl

flushed_inactive :
    (flush_batches some_links (λ _. 9 ∷ []) some_fallback batched).0
    ≡ lxmf_batch 114 ((1 ∷ 2 ∷ 3 ∷ []) ∷ []) ∷ []
unfolding flush_batches flush_each flush_one fall_back push_event push_to_subscribers push_each
    push_one get_subscribers lookup record_event add_to_batch insert clean_up unsubscribe_all
flushed_inactive = refl

Run-WithinLimits_example :
    WithinLimits
      (handle_link_death (subscribe (new_manager true) 7 1 1 (some 11) true).1 1).1.subscriptions
Run-WithinLimits_example = Run-WithinLimits (died 1 (subscribed 7 1 1 (some 11) true started))

subscribed_one :
    get_subscribers (subscribe (new_manager true) 7 1 1 (some 11) true).1 7 ≡ (1, 1) ∷ []
unfolding subscribe open_channel add_subscriber get_subscribers contains insert lookup
    total_subscribers
subscribed_one = refl

-- A capable subscriber gets the sealed encoding, the other one the plain one.
abbrev by_capability : Bool → Event
by_capability true = record { event_type = 0; payload = 8 ∷ []; data_dict = none }
by_capability false = message

sealed_and_plain :
    (push_message all_alive 20
      (record four_subscribers {
        subscriptions = (7, (1, 1) ∷ (2, 1) ∷ []) ∷ [];
        supports_sealed = (2, true) ∷ [];
      })
      7
      true
      by_capability).0
    ≡ resource 1 (1 ∷ 2 ∷ 3 ∷ []) ∷ packet 2 (8 ∷ []) ∷ []
unfolding push_message capable_are push_to_subscribers push_each push_one get_subscribers lookup
sealed_and_plain = refl
