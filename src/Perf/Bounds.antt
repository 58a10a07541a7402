-- ===== src/Perf/Bounds.antt =====
-- About sequences of calls of `ra_perf_record` in perf.c.
use optee_ra_fork.Base.{
  ℕ, ◌+◌, ◌-◌, ◌%◌, ◌^◌, ◌≤◌, ◌≡◌, sym, ap, ◌∙◌, arith, Bool-cases, inl, inr, List, [], ◌∷◌, ◌++◌,
  take, take_all, take-append, length, length-append, leb, not_leb→lt, leb→le, append_assoc,
  append-nil, true, false,
}
use optee_ra_fork.Perf.{Event, EventName, KeyMode, max_events, record_event}

-- A call of `ra_perf_record`.
pub record Call : Type 0 where
  pub event : EventName
  pub start_ticks : ℕ
  pub end_ticks : ℕ
  pub mode : KeyMode

unfoldable pub record_all : List Call → List Event → List Event
record_all [] events = events
record_all (c ∷ cs) events =
    record_all cs (record_event c.event c.start_ticks c.end_ticks c.mode events)

-- The event of a call, with the ticks between its two readings of the 64-bit counter.
unfoldable pub event_of : Call → Event
event_of c = record {
  event = c.event;
  mode = c.mode;
  ticks = (c.end_ticks + 2 ^ 64 - c.start_ticks) % 2 ^ 64;
}

unfoldable pub events_of : List Call → List Event
events_of [] = []
events_of (c ∷ cs) = event_of c ∷ events_of cs

take-append_full : {A : Type 0} (n : ℕ) (xs ys : List A) → length xs ≡ n → take n (xs ++ ys) ≡ xs
take-append_full n xs ys h = ap (λ k. take k (xs ++ ys)) (sym h) ∙ take-append xs ys

record_full :
    (c : Call) (events : List Event)
    → leb max_events (length events) ≡ true
    → record_event c.event c.start_ticks c.end_ticks c.mode events ≡ events
unfolding record_event
record_full c events full = rw full

record_room :
    (c : Call) (events : List Event)
    → leb max_events (length events) ≡ false
    → record_event c.event c.start_ticks c.end_ticks c.mode events ≡ events ++ event_of c ∷ []
unfolding record_event event_of
record_room c events room = rw room

-- From a buffer within its bound, any sequence of `ra_perf_record` calls leaves the first 16 of the
-- events there and of the calls' events, in order: later calls are dropped, none is overwritten.
pub record_all-take :
    (cs : List Call) (events : List Event)
    → length events ≤ max_events
    → record_all cs events ≡ take max_events (events ++ events_of cs)
unfolding record_all events_of
record_all-take [] events h = sym (ap (take 16) (append-nil events) ∙ take_all 16 events h)
record_all-take (c ∷ cs) events h = elim (Bool-cases (leb max_events (length events))) [
  | inl full ↦
      let filled : length events ≡ 16 = omega (arith, leb→le 16 (length events) full) in
      ap (record_all cs) (record_full c events full)
      ∙ record_all-take cs events h
      ∙ take-append_full 16 events (events_of cs) filled
      ∙ sym (take-append_full 16 events (event_of c ∷ events_of cs) filled)
  | inr room ↦
      ap (record_all cs) (record_room c events room)
      ∙ record_all-take cs (events ++ event_of c ∷ []) (
          omega (arith, not_leb→lt 16 (length events) room, length-append events (event_of c ∷ [])))
      ∙ ap (take 16) (append_assoc events (event_of c ∷ []) (events_of cs))
]
