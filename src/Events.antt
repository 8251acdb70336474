-- ===== src/Events.antt =====
-- The event hub (src/dispatcher/events.go): a bounded buffer of recent events with consecutive
-- numbers, and subscribers with bounded channels. A subscriber whose channel is full is dropped.
pub mod Ring
use hydra_umc_job_dispatcher.Common.{
  ℕ, suc, ◌+◌, ◌-◌, Bool, List, [], ◌∷◌, ◌++◌, Text, ltb, length, if◌then◌else◌, select, not, ◌==◌,
}
use hydra_umc_job_dispatcher.Common.Int.{ℤ}
use hydra_umc_job_dispatcher.Time.{Instant, unix_milli}

-- EventAssigned, EventDone, EventFailed, EventUnknown
pub data EventType : Type 0 where
  assigned done failed unknown : EventType

pub record Event : Type 0 where
  pub id : ℕ
  pub kind : EventType
  pub job_id : Text
  pub robot_id : Text
  pub attempt : ℕ
  pub at_ms : ℤ

-- A channel with its buffered events, oldest first. `closed` is set when the hub closes it.
pub record Subscriber : Type 0 where
  pub number : ℕ
  pub queue : List Event

pub record EventHub : Type 0 where
  pub enabled : Bool
  pub buffer : ℕ
  pub subscriber_size : ℕ
  pub ring : List Event
  pub next : ℕ
  pub subs : List Subscriber
  pub opened : ℕ
  pub now : Instant

abbrev pub drop : {A : Type 0} → ℕ → List A → List A
drop ℕ.zero xs = xs
drop (suc n) [] = []
drop (suc n) (x ∷ xs) = drop n xs

-- The ring after `append`, cut to its last `Buffer` events.
unfoldable pub push_ring : ℕ → Event → List Event → List Event
push_ring buffer ev ring =
    let grown = ring ++ ev ∷ [] in
    if ltb buffer (length grown) then drop (length grown - buffer) grown else grown

-- `select { case ch <- ev: default: delete; close }` for each subscriber.
unfoldable pub offer : ℕ → Event → List Subscriber → List Subscriber
offer size ev [] = []
offer size ev (s ∷ ss) =
    if ltb (length s.queue) size
    then record s { queue = s.queue ++ ev ∷ [] } ∷ offer size ev ss
    else offer size ev ss

unfoldable pub publish : EventType → Text → Text → ℕ → EventHub → EventHub
unfolding push_ring offer
publish kind job_id robot_id attempt h =
    let ev : Event = record {
      id = h.next + 1;
      kind = kind;
      job_id = job_id;
      robot_id = robot_id;
      attempt = attempt;
      at_ms = unix_milli h.now;
    } in
    if h.enabled
    then record h {
      next = h.next + 1;
      ring = push_ring h.buffer ev h.ring;
      subs = offer h.subscriber_size ev h.subs;
    }
    else h

-- The events a new subscriber has missed, and the hub with its channel.
unfoldable pub replay_since : ℕ → List Event → List Event
replay_since since ring = select (λ ev. ltb since ev.id) ring

unfoldable pub subscribe : ℕ → EventHub → List Event × EventHub
unfolding replay_since
subscribe since h = (
  replay_since since h.ring,
  record h {
    subs = h.subs ++ record { number = h.opened; queue = [] } ∷ [];
    opened = h.opened + 1;
  },
)

-- The function that `Subscribe` returns: it takes the channel out of the hub, once.
unfoldable pub cancel : ℕ → EventHub → EventHub
cancel number h = record h { subs = select (λ s. not (s.number == number)) h.subs }
