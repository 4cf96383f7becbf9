-- ===== src/Poller/Events.antt =====
-- lib/src/device/poller.rs: the iterator over the events of a poll.
use v4l2r.Base.{
  ℕ, zero, suc, ◌+◌, ◌-◌, ◌%◌, ◌^◌, false, List, [], ◌∷◌, Option, none, some, Run, done, panicked,
  ltb, ◌==◌, if◌then◌else◌, get_elem?, set,
}
use v4l2r.Poller.{
  capture_ready, output_ready, v4l2_event, PollEvent, device, waker, EpollFlags, EpollEvent,
  device_id, no_flags,
}

pub record PollEvents : Type 0 where
  pub events : List EpollEvent
  pub nb_events : ℕ
  pub cur_event : ℕ

-- `PollEvents::new`
unfoldable pub new_events : PollEvents
new_events =
    let empty : EpollEvent = record { events = no_flags; data_ = 0 } in
    record { events = empty ∷ empty ∷ empty ∷ empty ∷ []; nb_events = 0; cur_event = 0 }

-- `*slot = EpollEvent::new(...)`
abbrev pub rewrite_slot : PollEvents → EpollEvent → EpollFlags → PollEvents
rewrite_slot pe slot flags = record pe {
  events = set pe.events pe.cur_event (record slot { events = flags });
}

-- `PollEvents::next`, where `n` slots are left: `cur_event >= nb_events` is `n` being 0.
unfoldable pub next_from : ℕ → PollEvents → Run (PollEvents × Option PollEvent)
next_from zero pe = done (pe, none)
next_from (suc n) pe = elim (get_elem? pe.events pe.cur_event) [
  | none ↦ panicked
  | some slot ↦
      let rest = next_from n (record pe { cur_event = pe.cur_event + 1 }) in
      if slot.data_ == device_id
      then if slot.events.epollout
        then done (
          rewrite_slot pe slot (record (slot.events) { epollout = false }),
          some (device output_ready),
        )
        else if slot.events.epollin
        then done (
          rewrite_slot pe slot (record (slot.events) { epollin = false }),
          some (device capture_ready),
        )
        else if slot.events.epollpri
        then done (
          rewrite_slot pe slot (record (slot.events) { epollpri = false }),
          some (device v4l2_event),
        )
        else rest
      else if ltb slot.data_ device_id
      then done (record pe { cur_event = pe.cur_event + 1 }, some (waker (slot.data_ % 2 ^ 32)))
      else panicked
]

unfoldable pub next : PollEvents → Run (PollEvents × Option PollEvent)
next pe = next_from (pe.nb_events - pe.cur_event) pe
