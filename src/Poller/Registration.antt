-- ===== src/Poller/Registration.antt =====
-- lib/src/device/poller.rs: which events of the device epoll listens to.
use v4l2r.Base.{
  ◌≡◌, refl, ◌∙◌, ◌≢◌, Bool, true, false, Result, ok, err, arith, Bool-cases, inl, inr,
}
use v4l2r.Poller.{
  Errno, DeviceEvent, EpollFlags, Poller, update_device_registration, is_event_enabled,
  assign_event, same, set_event,
}

-- epoll listens to exactly the events that are enabled.
pub record InStep (p : Poller) : Type 0 where
  pub listens_in : p.registered.epollin ≡ p.capture_enabled
  pub listens_out : p.registered.epollout ≡ p.output_enabled
  pub listens_pri : p.registered.epollpri ≡ p.events_enabled

same-true : (a b : Bool) → same a b ≡ true → a ≡ b
same-true true b h = ground arith
same-true false true h = absurd (cc)
same-true false false h = refl

same_refl : (a : Bool) → same a a ≡ true
same_refl a = ground arith

assigned : (e : DeviceEvent) (b : Bool) (p : Poller) → is_event_enabled e (assign_event e b p) ≡ b
unfolding is_event_enabled assign_event
assigned e b p = ground arith

assigned_other :
    (e f : DeviceEvent) (b : Bool) (p : Poller)
    → e ≢ f
    → is_event_enabled f (assign_event e b p) ≡ is_event_enabled f p
unfolding is_event_enabled assign_event
assigned_other e f b p h = ground arith

enabled_registered :
    (e : DeviceEvent) (p : Poller) (flags : EpollFlags)
    → is_event_enabled e (record p { registered = flags }) ≡ is_event_enabled e p
unfolding is_event_enabled
enabled_registered e p flags = ground arith

assign-registered :
    (e : DeviceEvent) (b : Bool) (p : Poller) → (assign_event e b p).registered ≡ p.registered
unfolding assign_event
assign-registered e b p = ground arith

-- If epoll listens to exactly the enabled events and `set_event` succeeds, the event is enabled or
-- disabled as asked, the other events are as before, and epoll listens to exactly the enabled events.
pub set_event-ok :
    (modify : Result Errno (Unit {0})) (event : DeviceEvent) (enable : Bool) (p : Poller)
    {p' : Poller} {t : Unit {0}}
    → InStep p
    → set_event modify event enable p ≡ (p', ok t)
    → InStep p'
      × (is_event_enabled event p' ≡ enable)
      × ((other : DeviceEvent)
          → event ≢ other
          → is_event_enabled other p' ≡ is_event_enabled other p)
unfolding set_event update_device_registration
set_event-ok modify event enable p {p'} s h =
    elim (Bool-cases (same (is_event_enabled event p) enable)) [
      | inl u ↦ let eq : p ≡ p' = ground arith in rw (← eq) (s, same-true _ _ u, λ other ne. refl)
      | inr c ↦ changed modify (rw c at h)
    ]
  where
    changed :
        (m : Result Errno (Unit {0}))
        → update_device_registration m (assign_event event enable p) ≡ (p', ok _)
        → InStep p'
          × (is_event_enabled event p' ≡ enable)
          × ((other : DeviceEvent)
              → event ≢ other
              → is_event_enabled other p' ≡ is_event_enabled other p)
    changed (err e) h' = absurd (ground arith)
    changed (ok _) h' =
        let q : Poller = assign_event event enable p in
        let flags : EpollFlags = record {
          epollin = q.capture_enabled;
          epollout = q.output_enabled;
          epollpri = q.events_enabled;
          epollerr = false;
        } in
        let eq : record q { registered = flags } ≡ p' = ground arith in
        rw (← eq) (
          record { listens_in = refl; listens_out = refl; listens_pri = refl },
          enabled_registered event q flags ∙ assigned event enable p,
          λ other ne. enabled_registered other q flags ∙ assigned_other event other enable p ne,
        )

-- If epoll refuses the change, `set_event` returns its error with the event marked as asked and
-- epoll listening to what it did before. Asking again then succeeds and changes nothing, whatever
-- epoll would answer.
pub set_event-err :
    (modify again : Result Errno (Unit {0})) (event : DeviceEvent) (enable : Bool) (p : Poller)
    {p' : Poller} {e : Errno}
    → set_event modify event enable p ≡ (p', err e)
    → (is_event_enabled event p' ≡ enable)
      × (p'.registered ≡ p.registered)
      × (set_event again event enable p' ≡ (p', ok tt))
unfolding set_event update_device_registration
set_event-err modify again event enable p {p'} {e} h =
    elim (Bool-cases (same (is_event_enabled event p) enable)) [
      | inl u ↦ absurd (ground arith)
      | inr c ↦ refused modify (rw c at h)
    ]
  where
    kept : (assign_event event enable p).registered ≡ p.registered
    kept = assign-registered event enable p

    refused :
        (m : Result Errno (Unit {0}))
        → update_device_registration m (assign_event event enable p) ≡ (p', err e)
        → (is_event_enabled event p' ≡ enable)
          × (p'.registered ≡ p.registered)
          × (set_event again event enable p' ≡ (p', ok tt))
    refused (ok _) h' = absurd (ground arith)
    refused (err x) h' =
        let eq : assign_event event enable p ≡ p' = ground arith in
        let now : is_event_enabled event p' ≡ enable = rw (← eq) (assigned event enable p) in
        (now, rw (← eq) kept, ground (arith, now, same_refl enable))
