-- ===== src/Busd/Tests.antt =====
-- Runs of the daemon, and the theorems at concrete tables.
use imx8mp_building_blocks.Base.{
  ◌+◌, ◌≡◌, ◌↔◌, ◌⊎◌, refl, none, List, [], ◌∷◌, ◌++◌, true, arith, All, replicate,
}
use imx8mp_building_blocks.Base.Bytes.{Bytes, codes}
use imx8mp_building_blocks.Bus.Lines.{newline}
use imx8mp_building_blocks.Bus.Words.{skip_space}
use imx8mp_building_blocks.Bus.Client.{Connection, publish_line, poll}
use imx8mp_building_blocks.Busd.Table.{
  Sub, find_sub, send, topic_match, publish, pub_line, subscribe, unsubscribe,
}
use imx8mp_building_blocks.Busd.Daemon.{Bus, no_client, Event, handle_line, handle_event}
use imx8mp_building_blocks.Busd.Topics.{topic_match_iff}
use imx8mp_building_blocks.Busd.Publish.{copies, subscriptions, IsCopy, publish_exact}
use imx8mp_building_blocks.Busd.Ids.{occ}
use imx8mp_building_blocks.Busd.Valid.{IsTable}
use imx8mp_building_blocks.Busd.Bounds.{handle_event-IsTable}
use imx8mp_building_blocks.Busd.Subscribe.{has_room, subscribed, subscribe_exact, unsubscribe_exact}
use imx8mp_building_blocks.Busd.Deliver.{IsTopic, IsPayload, end_to_end}

abbrev led : Bytes
led = codes "led/set"

abbrev on : Bytes
on = codes "on"

-- Clients 5 and 6 listen to "led/set", and 6 to "led/#" too.
abbrev two_topics : List Sub
two_topics =
    record { topic = led; client_ids = 5 ∷ 6 ∷ [] }
    ∷ record { topic = codes "led/#"; client_ids = 6 ∷ [] }
    ∷ []

publish-twice :
    publish led on 5 two_topics ≡ send 6 (pub_line led on) ∷ send 6 (pub_line led on) ∷ []
unfolding publish
publish-twice = refl

topic_match_iff_example :
    (topic_match (codes "led/#") led ≡ true)
    ↔ ((codes "led/#" ≡ led) ⊎ ((q r : Bytes) × (codes "led/#" ≡ q ++ b'#' ∷ []) × (led ≡ q ++ r)))
topic_match_iff_example = topic_match_iff (codes "led/#") led

publish_exact_example :
    (copies 6 (pub_line led on) (publish led on 5 two_topics) ≡ subscriptions 6 led two_topics)
    × All (IsCopy (pub_line led on)) (publish led on 5 two_topics)
publish_exact_example = publish_exact led on 5 6 two_topics

subscribe_exact_example :
    subscriptions 7 led (subscribe 7 (codes "led/#") two_topics)
    ≡ subscriptions 7 led two_topics + 1
unfolding has_room find_sub subscribed occ topic_match
subscribe_exact_example = subscribe_exact 7 7 (codes "led/#") led two_topics (omega arith)

unsubscribe_exact_example :
    subscriptions 6 led (unsubscribe 6 led two_topics) + 1 ≡ subscriptions 6 led two_topics
unfolding find_sub subscribed occ topic_match
unsubscribe_exact_example = unsubscribe_exact 6 6 led led two_topics

two_topics-IsTable : IsTable two_topics
two_topics-IsTable = record {
  bounded = omega arith;
  entries = (
    record { short = omega arith; few = omega arith; once = λ x. unfold occ in ground arith },
    (record { short = omega arith; few = omega arith; once = λ x. unfold occ in ground arith }, tt),
  );
}

-- The client of slot 0 sends "SUB a" and hangs up at once.
abbrev leaving : Event
leaving = record {
  tag = 0;
  readable = true;
  hangup = true;
  accepted = none;
  incoming = codes "SUB a" ++ newline ∷ [];
}

abbrev three_clients : Bus
three_clients = record {
  clients =
      record { fd = 5; buf = [] }
      ∷ record { fd = 6; buf = [] }
      ∷ record { fd = 7; buf = [] }
      ∷ replicate 61 no_client;
  num_clients = 3;
  subs = two_topics;
}

handle_event-IsTable_example : IsTable (handle_event 3 leaving three_clients).0.subs
handle_event-IsTable_example = handle_event-IsTable 3 leaving three_clients two_topics-IsTable

abbrev listener : Connection
listener = record { fd = 9; socket_path = []; handler = true }

led-IsTopic : IsTopic led
led-IsTopic = record {
  word = ground arith;
  text = ground arith;
  filled = omega arith;
  short = omega arith;
}

on-IsPayload : IsPayload on
unfolding skip_space
on-IsPayload = record { line = ground arith; filled = omega arith }

end_to_end_example :
    (copies 6 (pub_line led on) (handle_line 5 (publish_line led on) two_topics).1
      ≡ subscriptions 6 led two_topics)
    × (poll 1 (pub_line led on) listener [] ≡ (0, [], (led, on) ∷ []))
end_to_end_example =
    end_to_end 5 6 1 led on two_topics listener led-IsTopic on-IsPayload (omega arith) refl refl
      refl (omega arith)
