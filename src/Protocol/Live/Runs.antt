-- ===== src/Protocol/Live/Runs.antt =====
-- Runs of the subscription manager: any calls in any order.
use hokora.Base.{ℕ, ◌≡◌, refl, ◌∙◌, Bool, true, false, Option, none, some, List, [], ◌∷◌, arith}
use hokora.Bytes.{Bytes}
use hokora.Dict.{Dict}
use hokora.Protocol.Live.{
  LiveManager, new_manager, Links, Event, subscribe, remove_link, remove_from, unsubscribe,
  unsubscribe_all, get_subscribers, total_subscribers,
}
use hokora.Protocol.Live.Pushing.{
  record_event, add_to_batch, push_one, push_each, clean_up, push_to_subscribers, push_event,
  push_message, capable_are, handle_link_death,
}
use hokora.Protocol.Live.Batches.{flush_batches}
use hokora.Protocol.Live.Limits.{
  WithinLimits, subscribe_limits, remove_link_limits, remove_from_limits,
}

record_event_subscriptions :
    (now : ℕ) (m : LiveManager) (link channel : ℕ) (e : Event) (dict : Option ℕ)
    → (record_event now m link channel e dict).subscriptions ≡ m.subscriptions
unfolding record_event
record_event_subscriptions now m link channel e none = refl
record_event_subscriptions now m link channel e (some d) = refl

push_one_subscriptions :
    (links : Links) (now channel : ℕ) (e : Event) (m : LiveManager) (link profile : ℕ)
    → (push_one links now channel e m link profile).2.subscriptions ≡ m.subscriptions
unfolding push_one add_to_batch
push_one_subscriptions links now channel e m link profile =
    ground (arith, record_event_subscriptions now m link channel e e.data_dict)

-- Turns change no subscription; only the cleaning up after them does.
push_each_subscriptions :
    (links : Links) (now channel : ℕ) (e : Event) (m : LiveManager) (subscribers : Dict ℕ ℕ)
    → (push_each links now channel e m subscribers).2.subscriptions ≡ m.subscriptions
unfolding push_each
push_each_subscriptions links now channel e m [] = refl
push_each_subscriptions links now channel e m ((link, profile) ∷ subscribers) =
    push_each_subscriptions links now channel e (push_one links now channel e m link profile).2
      subscribers
    ∙ push_one_subscriptions links now channel e m link profile

removed_limits :
    (link : ℕ) (d : Dict ℕ (Dict ℕ ℕ)) → WithinLimits d → WithinLimits (remove_link link d)
removed_limits link d w =
    let (each, total) = remove_link_limits _ link d w.each in
    record { each = each; total = omega (arith, w.total) }

unsubscribed_limits :
    (channel link : ℕ) (d : Dict ℕ (Dict ℕ ℕ))
    → WithinLimits d
    → WithinLimits (remove_from channel link d)
unsubscribed_limits channel link d w =
    let (each, total) = remove_from_limits _ channel link d w.each in
    record { each = each; total = omega (arith, w.total) }

clean_up_limits :
    (dead : List ℕ) (m : LiveManager)
    → WithinLimits m.subscriptions
    → WithinLimits (clean_up dead m).subscriptions
unfolding clean_up unsubscribe_all
clean_up_limits [] m w = w
clean_up_limits (link ∷ dead) m w =
    clean_up_limits dead (unsubscribe_all m link) (removed_limits link m.subscriptions w)

push_limits :
    (links : Links) (now : ℕ) (m : LiveManager) (channel : ℕ) (subscribers : Dict ℕ ℕ) (e : Event)
    → WithinLimits m.subscriptions
    → WithinLimits (push_to_subscribers links now m channel subscribers e).1.subscriptions
unfolding push_to_subscribers
push_limits links now m channel subscribers e w =
    let (effects, dead, m') = push_each links now channel e m subscribers in
    clean_up_limits dead m' (rw (push_each_subscriptions links now channel e m subscribers) w)

push_message_limits :
    (links : Links) (now : ℕ) (m : LiveManager) (channel : ℕ) (sealed : Bool)
    (encoded : Bool → Event)
    → WithinLimits m.subscriptions
    → WithinLimits (push_message links now m channel sealed encoded).1.subscriptions
unfolding push_message
push_message_limits links now m channel false encoded w =
    push_limits links now m channel (get_subscribers m channel) (encoded false) w
push_message_limits links now m channel true encoded w =
    push_limits links now _ channel (capable_are m true (get_subscribers m channel)) (encoded true)
      (push_limits links now m channel (capable_are m false (get_subscribers m channel))
        (encoded false) w)

-- Clients subscribe and leave, events are pushed over links in any condition, links die and
-- batches are flushed, in any order.
pub data Run (hook : Bool) : LiveManager → Type 0 where
  started : Run hook (new_manager hook)
  subscribed :
      {m : LiveManager} (channel link profile : ℕ) (identity : Option ℕ) (sealed : Bool)
      → Run hook m
      → Run hook (subscribe m channel link profile identity sealed).1
  unsubscribed :
      {m : LiveManager} (channel link : ℕ) → Run hook m → Run hook (unsubscribe m channel link)
  left : {m : LiveManager} (link : ℕ) → Run hook m → Run hook (unsubscribe_all m link)
  event_pushed :
      {m : LiveManager} (links : Links) (now channel : ℕ) (e : Event)
      → Run hook m
      → Run hook (push_event links now m channel e).1
  message_pushed :
      {m : LiveManager} (links : Links) (now channel : ℕ) (sealed : Bool) (encoded : Bool → Event)
      → Run hook m
      → Run hook (push_message links now m channel sealed encoded).1
  died : {m : LiveManager} (link : ℕ) → Run hook m → Run hook (handle_link_death m link).1
  flushed :
      {m : LiveManager} (links : Links) (batch : List Bytes → Bytes)
      (fallback : Option (ℕ → Option ℕ))
      → Run hook m
      → Run hook (flush_batches links batch fallback m).1

-- In every run of subscriptions, departures, pushes, link deaths and flushes no channel has more
-- than a hundred subscribers, and all channels together have at most five hundred.
pub Run-WithinLimits : {hook : Bool} {m : LiveManager} → Run hook m → WithinLimits m.subscriptions
unfolding unsubscribe unsubscribe_all push_event handle_link_death flush_batches
Run-WithinLimits started = record { each = tt; total = unfold total_subscribers in omega arith }
Run-WithinLimits (subscribed {m = m} channel link profile identity sealed r) =
    subscribe_limits m channel link profile identity sealed (Run-WithinLimits r)
Run-WithinLimits (unsubscribed {m = m} channel link r) =
    unsubscribed_limits channel link m.subscriptions (Run-WithinLimits r)
Run-WithinLimits (left {m = m} link r) = removed_limits link m.subscriptions (Run-WithinLimits r)
Run-WithinLimits (event_pushed {m = m} links now channel e r) =
    push_limits links now m channel (get_subscribers m channel) e (Run-WithinLimits r)
Run-WithinLimits (message_pushed {m = m} links now channel sealed encoded r) =
    push_message_limits links now m channel sealed encoded (Run-WithinLimits r)
Run-WithinLimits (died {m = m} link r) = removed_limits link m.subscriptions (Run-WithinLimits r)
Run-WithinLimits (flushed links batch fallback r) = Run-WithinLimits r
