-- ===== src/Examples/Feed.antt =====
-- The event buffer at a hub of two places.
use hydra_umc_job_dispatcher.Common.{◌≡◌, refl, ◌+◌, true, [], ◌∷◌, length, arith}
use hydra_umc_job_dispatcher.Common.Int.{pos}
use hydra_umc_job_dispatcher.Events.{Event, EventHub, EventType, publish, replay_since}
use hydra_umc_job_dispatcher.Events.Ring.{
  CountsTo, IsBuffered, publish-IsBuffered, replay_since-length,
}
use hydra_umc_job_dispatcher.Examples.{weld, arm}

abbrev first : Event
first = record {
  id = 1;
  kind = EventType.assigned;
  job_id = weld;
  robot_id = arm;
  attempt = 1;
  at_ms = pos 0;
}

abbrev second_event : Event
second_event = record first { id = 2; kind = EventType.done }

abbrev hub : EventHub
hub = record {
  enabled = true;
  buffer = 2;
  subscriber_size = 4;
  ring = first ∷ second_event ∷ [];
  next = 2;
  subs = [];
  opened = 0;
  now = 0;
}

hub-IsBuffered : IsBuffered hub
unfolding IsBuffered CountsTo
hub-IsBuffered = ((refl, (refl, tt)), omega arith)

publish-IsBuffered_example : IsBuffered (publish EventType.failed weld arm 2 hub)
publish-IsBuffered_example = publish-IsBuffered EventType.failed weld arm 2 hub hub-IsBuffered

hub-CountsTo : CountsTo hub.ring 2
unfolding CountsTo
hub-CountsTo = (refl, (refl, tt))

replay_since-length_example : length (replay_since 1 hub.ring) + 1 ≡ 2
replay_since-length_example =
    replay_since-length 1 hub.ring 2 hub-CountsTo (omega arith) (omega arith)
