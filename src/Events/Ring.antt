-- ===== src/Events/Ring.antt =====
-- The buffer of recent events: bounded, without gaps, and complete for a subscriber that comes back
-- in time.
use hydra_umc_job_dispatcher.Common.{
  ℕ, zero, suc, ◌+◌, ◌-◌, ◌≤◌, ◌≡◌, refl, ap, ltb→lt, inl, inr, List, [], ◌∷◌, ◌++◌, Text, ltb,
  length, select, Bool-cases, arith,
}
use hydra_umc_job_dispatcher.Time.{unix_milli}
use hydra_umc_job_dispatcher.Events.{
  Event, EventHub, EventType, push_ring, publish, replay_since, drop,
}

-- The numbers are consecutive, and `n` is the last of them.
unfoldable pub CountsTo : List Event → ℕ → Type 0
CountsTo [] n = Unit
CountsTo (ev ∷ evs) n = (ev.id + length evs ≡ n) × CountsTo evs n

-- A hub whose buffer holds the last events, no more than it may.
unfoldable pub IsBuffered : EventHub → Type 0
IsBuffered h = CountsTo h.ring h.next × (length h.ring ≤ h.buffer)

length-append : (evs : List Event) (ev : Event) → length (evs ++ ev ∷ []) ≡ suc (length evs)
length-append [] ev = refl
length-append (x ∷ evs) ev = ground (arith, length-append evs ev)

append-CountsTo :
    (evs : List Event) (ev : Event) (n : ℕ)
    → CountsTo evs n
    → ev.id ≡ n + 1
    → CountsTo (evs ++ ev ∷ []) (n + 1)
unfolding CountsTo
append-CountsTo [] ev n c h = (omega (arith, h), tt)
append-CountsTo (x ∷ evs) ev n (e, c) h =
    (omega (arith, e, length-append evs ev), append-CountsTo evs ev n c h)

drop-CountsTo : (k : ℕ) (evs : List Event) (n : ℕ) → CountsTo evs n → CountsTo (drop k evs) n
unfolding CountsTo
drop-CountsTo zero evs n c = c
drop-CountsTo (suc k) [] n c = tt
drop-CountsTo (suc k) (x ∷ evs) n (e, c) = drop-CountsTo k evs n c

length-drop : (k : ℕ) (evs : List Event) → length (drop k evs) ≡ length evs - k
length-drop zero evs = omega arith
length-drop (suc k) [] = omega arith
length-drop (suc k) (x ∷ evs) = ground (arith, length-drop k evs)

-- Publishing keeps the buffer within its size and its numbers consecutive up to the last one given.
pub publish-IsBuffered :
    (kind : EventType) (job_id robot_id : Text) (attempt : ℕ) (h : EventHub)
    → IsBuffered h
    → IsBuffered (publish kind job_id robot_id attempt h)
unfolding publish push_ring IsBuffered
publish-IsBuffered kind job_id robot_id attempt h (c, b) = elim (Bool-cases h.enabled) [
  | inr off ↦ rw off (c, b)
  | inl on ↦
      let ev : Event = record {
        id = h.next + 1;
        kind = kind;
        job_id = job_id;
        robot_id = robot_id;
        attempt = attempt;
        at_ms = unix_milli h.now;
      } in
      let grown = append-CountsTo h.ring ev h.next c refl in
      let size = length-append h.ring ev in
      elim (Bool-cases (ltb h.buffer (length (h.ring ++ ev ∷ [])))) [
        | inl over ↦
            rw (on, over)
              (
                drop-CountsTo _ _ _ grown,
                omega (
                  arith,
                  b,
                  size,
                  length-drop (length (h.ring ++ ev ∷ []) - h.buffer) (h.ring ++ ev ∷ []),
                ),
              )
        | inr fits ↦ rw (on, fits) (grown, ground arith)
      ]
]

replayed :
    (since : ℕ) (evs : List Event) (n : ℕ)
    → CountsTo evs n
    → since + length evs ≤ n
    → replay_since since evs ≡ evs
unfolding CountsTo replay_since select
replayed since [] n c h = refl
replayed since (x ∷ evs) n (e, c) h = ground (arith, replayed since evs n c)

-- If the numbers of the buffer are consecutive up to `n`, and it still holds all that came after
-- `since`, then a subscriber that saw everything up to `since` is given as many events as came later.
pub replay_since-length :
    (since : ℕ) (evs : List Event) (n : ℕ)
    → CountsTo evs n
    → since ≤ n
    → n ≤ since + length evs
    → length (replay_since since evs) + since ≡ n
unfolding CountsTo replay_since select
replay_since-length since [] n c low h = omega arith
replay_since-length since (x ∷ evs) n (e, c) low h = elim (Bool-cases (ltb since x.id)) [
  | inl later ↦ rw later (
      omega
        (arith, ap length (replayed since evs n c (ground arith)), ltb→lt since x.id later, e, h))
  | inr earlier ↦ rw earlier (replay_since-length since evs n c low (ground arith))
]
