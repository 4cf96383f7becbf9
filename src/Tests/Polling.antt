-- ===== src/Tests/Polling.antt =====
-- The theorems on the poller, applied to a poller with one waker.
use v4l2r.Base.{
  ℕ, zero, suc, ◌≤◌, ◌≡◌, refl, ◌≢◌, true, false, List, [], ◌∷◌, none, some, Result, ok, err,
  get_elem?, arith,
}
use v4l2r.Poller.{
  DeviceEvent, capture_ready, EpollFlags, EpollEvent, device_id, no_flags, Waker, Poller, set_event,
  is_event_enabled, add_waker, poll,
}
use v4l2r.Poller.Iterating.{pending, Known, drain, next-drains}
use v4l2r.Poller.Registration.{InStep, set_event-ok, set_event-err}
use v4l2r.Poller.Waking.{Polled, poll-ok}

abbrev in_and_out : EpollFlags
in_and_out = record no_flags { epollin = true; epollout = true }

abbrev two_events : List EpollEvent
two_events =
    record { events = in_and_out; data_ = device_id }
    ∷ record { events = no_flags; data_ = 20 }
    ∷ []

two_events-Known : Known 2 two_events 0
two_events-Known = record { exist = omega arith; ids = at }
  where
    at : (j : ℕ) (e : EpollEvent) → get_elem? two_events j ≡ some e → e.data_ ≤ device_id
    at zero e h = ground arith
    at (suc zero) e h = ground arith
    at (suc (suc j)) e h = absurd (cc)

next-drains_example :
    drain 7 (record { events = two_events; nb_events = 2; cur_event = 0 })
    ≡ some (pending 2 two_events 0)
next-drains_example = next-drains 2 two_events two_events-Known

abbrev quiet : Poller
quiet = record {
  wakers = (20, record { counter = 3 }) ∷ [];
  registered = no_flags;
  capture_enabled = false;
  output_enabled = false;
  events_enabled = false;
  poll_wakeups_counter = none;
}

abbrev listening : Poller
listening = record quiet { registered = record no_flags { epollin = true }; capture_enabled = true }

abbrev half_way : Poller
half_way = record quiet { capture_enabled = true }

quiet-InStep : InStep quiet
quiet-InStep = record { listens_in = refl; listens_out = refl; listens_pri = refl }

enabled : set_event (ok tt) capture_ready true quiet ≡ (listening, ok tt)
unfolding set_event is_event_enabled v4l2r.Poller.update_device_registration
    v4l2r.Poller.assign_event
enabled = refl

set_event-ok_example :
    InStep listening
    × (is_event_enabled capture_ready listening ≡ true)
    × ((other : DeviceEvent)
        → capture_ready ≢ other
        → is_event_enabled other listening ≡ is_event_enabled other quiet)
set_event-ok_example = set_event-ok (ok tt) capture_ready true quiet quiet-InStep enabled

not_enabled : set_event (err 5) capture_ready true quiet ≡ (half_way, err 5)
unfolding set_event is_event_enabled v4l2r.Poller.update_device_registration
    v4l2r.Poller.assign_event
not_enabled = refl

set_event-err_example :
    (is_event_enabled capture_ready half_way ≡ true)
    × (no_flags ≡ no_flags)
    × (set_event (err 6) capture_ready true half_way ≡ (half_way, ok tt))
set_event-err_example = set_event-err (err 5) (err 6) capture_ready true quiet not_enabled

abbrev fresh_waker : Waker
fresh_waker = record { counter = 0 }

added :
    add_waker 4 (ok tt) (ok tt) quiet
    ≡ (record quiet { wakers = (4, fresh_waker) ∷ quiet.wakers }, ok fresh_waker)
unfolding add_waker v4l2r.Poller.lookup
added = refl

abbrev reads : ℕ → Result ℕ (Unit {0})
reads id = ok tt

abbrev woken_up : Poller
woken_up = record quiet { wakers = (20, fresh_waker) ∷ [] }

polled : poll (ok two_events) reads quiet ≡ (woken_up, ok two_events)
unfolding poll v4l2r.Poller.reset_wakers v4l2r.Poller.lookup v4l2r.Poller.update_waker
    v4l2r.Poller.device_error v4l2r.Poller.reset
polled = refl

poll-ok_example : Polled (ok two_events) quiet woken_up two_events
poll-ok_example = poll-ok (ok two_events) reads quiet polled
