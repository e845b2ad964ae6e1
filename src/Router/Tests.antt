-- ===== src/Router/Tests.antt =====
-- The router at concrete subscriptions: the properties applied, and runs that can be followed.
use iotd.Prelude.{
  Bytes, ◌≤◌, ◌≡◌, ◌↔◌, refl, true, false, ◌&&◌, none, List, [], ◌∷◌, ◌++◌, map, arith, get, insert,
  length, bytes_eq, ◌==◌, if◌then◌else◌,
}
use iotd.Protocol.Packet.{ascii, QoS, PublishPacket, at_most_once, at_least_once, exactly_once}
use iotd.Storage.Memory.{
  InMemoryStorage, memory, memory-IsRetainedStore, save_retained_message, delete_retained_message,
}
use iotd.Storage.Memory
use iotd.Storage.Refinement.{RetainedMap, Refines, refines_of}
use iotd.Router.Qos.{min_qos}
use iotd.Router.Topic.{
  split, match_parts, topic_matches, validate_levels, validate_subscribe_filter, has_wildcards,
}
use iotd.Router.Topic.Matching.{Matches, PlusIsFull, topic_matches_iff}
use iotd.Router.Index.{RouterInternal, new, add_subscription, unsubscribe_all, subscription}
use iotd.Router.Index.Consistent.{subscription-unsubscribe_all}
use iotd.Router.Retained.{push_matching, find_retained_for_filter, handle_retained_message}
use iotd.Router.Retained.Stored.{
  kept, writes, view-handle_retained_message, count-handle_retained_message,
}
use iotd.Router.Retained.Keyed.{IsKeyed-handle_retained_message}
use iotd.Router.Retained.Found.{IsKeyed, IsCache, matching, find_retained-matching}
use iotd.Router.Subscribe.{subscribe_one, subscribe_loop, subscribe}
use iotd.Router.Subscribe.Codes.{
  code, retained_for, requested, subscription-subscribe, retained-subscribe,
}
use iotd.Router.Route.{forward_packet, to_subscribers, deliveries}
use iotd.Router.Route.Receivers.{for_session, expected, deliveries-expected}
use iotd.Router.Lifecycle.{
  Reach, start, step, subscribing, IsRouter, Reach-IsRouter, nothing_after_leaving,
}

abbrev room : Bytes
room = ascii "home/kitchen/temp"

abbrev any_room : Bytes
any_room = ascii "home/+/temp"

abbrev home : Bytes
home = ascii "home/#"

abbrev alice : Bytes
alice = ascii "alice"

abbrev bob : Bytes
bob = ascii "bob"

topic_matches_iff_example :
    (topic_matches room any_room ≡ true)
    ↔ (Matches (split room) (split any_room) × PlusIsFull (split room) (split any_room))
unfolding validate_subscribe_filter validate_levels split
topic_matches_iff_example = topic_matches_iff room any_room refl

matching_runs :
    (topic_matches room home ≡ true)
    × (topic_matches (ascii "home") home ≡ true)
    × (topic_matches (ascii "home//temp") any_room ≡ false)
unfolding topic_matches match_parts split
matching_runs = (refl, refl, refl)

-- Where MQTT 3.1.1 says otherwise, in 4.7.1.3 and 4.7.2.
differing_runs :
    (topic_matches (ascii "/finance") (ascii "+/+") ≡ false)
    × (topic_matches (ascii "$SYS/uptime") (ascii "#") ≡ true)
unfolding topic_matches match_parts split
differing_runs = (refl, refl)

abbrev hot : PublishPacket
hot = record {
  topic = room;
  packet_id = none;
  payload = ascii "40C";
  qos = at_least_once;
  retain = true;
  dup = false;
}

abbrev wishes : List (Bytes × QoS)
wishes = (any_room, exactly_once) ∷ (ascii "home/#/temp", at_most_once) ∷ (room, at_most_once) ∷ []

abbrev storage : InMemoryStorage
storage = Memory.new

abbrev subscribed : RouterInternal
subscribed = (subscribe memory alice 1 storage wishes new).router

codes_run : map code wishes ≡ 2 ∷ 0x80 ∷ 0 ∷ []
unfolding validate_subscribe_filter validate_levels split
codes_run = refl

subscription-subscribe_example : subscription alice room subscribed ≡ (
    if alice == alice
    then requested 1 room wishes (subscription alice room new)
    else subscription alice room new)
subscription-subscribe_example = subscription-subscribe memory alice 1 storage wishes new alice room

abbrev stocked : InMemoryStorage
stocked = handle_retained_message memory 10 5 hot storage

stocked-IsKeyed : IsKeyed stocked.retained
stocked-IsKeyed = IsKeyed-handle_retained_message memory memory-IsRetainedStore 10 5 hot storage tt

retained-subscribe_example :
    (subscribe memory alice 1 stocked wishes new).retained_to_send
    ≡ retained_for wishes stocked.retained
retained-subscribe_example =
    retained-subscribe memory alice 1 stocked memory-IsRetainedStore stocked-IsKeyed wishes new

abbrev memory_map : Refines memory
memory_map = refines_of memory memory-IsRetainedStore

view-handle_retained_message_example :
    (m : RetainedMap) × (stocked.retained ≡ m)
    × ((t : Bytes)
        → get t m ≡ (
            if writes memory memory_map 10 5 hot storage && room == t
            then kept 10 5 hot storage.retained
            else get t storage.retained))
view-handle_retained_message_example =
    view-handle_retained_message memory memory_map 10 5 hot storage storage.retained refl refl refl

count-handle_retained_message_example : (m : RetainedMap) × (stocked.retained ≡ m) × (length m ≤ 10)
count-handle_retained_message_example =
    count-handle_retained_message memory memory_map 10 5 hot storage storage.retained refl
      (omega arith) refl refl

find_retained-matching_example :
    let after = find_retained_for_filter memory room at_most_once stocked ([], none) in
    (after.0 ≡ [] ++ matching room at_most_once stocked.retained)
    × IsCache memory memory-IsRetainedStore after.1 stocked
find_retained-matching_example =
    find_retained-matching memory memory-IsRetainedStore room at_most_once stocked [] none
      stocked-IsKeyed tt

reached : Reach memory subscribed
reached = step start (subscribing alice 1 storage wishes)

Reach-IsRouter_example : IsRouter subscribed
Reach-IsRouter_example = Reach-IsRouter memory (step start (subscribing alice 1 storage wishes))

nothing_after_leaving_example :
    for_session alice (deliveries hot (unsubscribe_all alice subscribed).filters) ≡ []
nothing_after_leaving_example = nothing_after_leaving memory alice hot reached

subscription-unsubscribe_all_example :
    subscription bob room (unsubscribe_all alice subscribed)
    ≡ (if alice == bob then none else subscription bob room subscribed)
subscription-unsubscribe_all_example =
    subscription-unsubscribe_all alice bob room subscribed
      (Reach-IsRouter memory reached).consistent

deliveries-expected_example :
    for_session alice (deliveries hot subscribed.filters) ≡ expected hot alice subscribed.filters
deliveries-expected_example =
    deliveries-expected hot alice subscribed.filters (Reach-IsRouter memory reached).maps.1

-- Two filters match, so that the message is delivered twice.
delivery_run :
    map (λ d. d.packet.qos) (deliveries hot subscribed.filters) ≡ at_least_once ∷ at_most_once ∷ []
unfolding deliveries to_subscribers forward_packet min_qos topic_matches match_parts split subscribe
    subscribe_loop subscribe_one add_subscription validate_subscribe_filter validate_levels insert
    get has_wildcards find_retained_for_filter push_matching
delivery_run = refl
