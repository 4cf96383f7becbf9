-- ===== src/Poller/Iterating.antt =====
-- lib/src/device/poller.rs: what iterating over the events of a poll gives.
use v4l2r.Base.{
  ℕ, zero, suc, ◌+◌, ◌*◌, ◌≤◌, ◌<◌, ◌≡◌, refl, sym, ap, ◌∙◌, false, List, [], ◌∷◌, ◌++◌, Option,
  none, some, Run, done, panicked, arith, ◌==◌, if◌then◌else◌, get_elem?, set, length, length-set,
  get_elem?-set_self, get_elem?-set_ne, get_elem?-lt, length-append, Option-cases, Bool-cases, inl,
  inr, subst,
}
use native.Mathlib.Decide.{ℕ_discrete}
use v4l2r.Poller.{
  capture_ready, output_ready, v4l2_event, PollEvent, device, waker, EpollFlags, EpollEvent,
  device_id,
}
use v4l2r.Poller.Events.{PollEvents, next_from, next, rewrite_slot}

-- The events that a slot stands for, in the order in which they are reported.
abbrev pub device_events : EpollFlags → List PollEvent
device_events f =
    (if f.epollout then device output_ready ∷ [] else [])
    ++ (if f.epollin then device capture_ready ∷ [] else [])
    ++ (if f.epollpri then device v4l2_event ∷ [] else [])

abbrev pub slot_events : EpollEvent → List PollEvent
slot_events e = if e.data_ == device_id then device_events e.events else waker e.data_ ∷ []

-- The events of the next `n` slots, from `cur` on.
unfoldable pub pending : ℕ → List EpollEvent → ℕ → List PollEvent
pending zero es cur = []
pending (suc n) es cur = elim (get_elem? es cur) [
  | none ↦ []
  | some e ↦ slot_events e ++ pending n es (cur + 1)
]

-- The slots that are left exist, and carry the id of the device or of a waker.
pub record Known (n : ℕ) (es : List EpollEvent) (cur : ℕ) : Type 0 where
  pub exist : cur + n ≤ length es
  pub ids : (j : ℕ) (e : EpollEvent) → get_elem? es j ≡ some e → e.data_ ≤ device_id

pending-found :
    (n : ℕ) (es : List EpollEvent) (cur : ℕ) {e : EpollEvent}
    → get_elem? es cur ≡ some e
    → pending (suc n) es cur ≡ slot_events e ++ pending n es (cur + 1)
unfolding pending
pending-found n es cur there = rw (pending, there) refl

pending-missing :
    (n : ℕ) (es : List EpollEvent) (cur : ℕ) → get_elem? es cur ≡ none → pending (suc n) es cur ≡ []
unfolding pending
pending-missing n es cur there = rw (pending, there) refl

pending-set :
    (n : ℕ) (es : List EpollEvent) (cur i : ℕ) (e : EpollEvent)
    → i < cur
    → pending n (set es i e) cur ≡ pending n es cur
unfolding pending
pending-set zero es cur i e h = refl
pending-set (suc n) es cur i e h =
    let rest = pending-set n es (cur + 1) i e (omega arith) in
    let here = get_elem?-set_ne es i cur e (λ p. omega arith) in
    elim (Option-cases (get_elem? es cur)) [
      | inl m ↦ pending-missing n (set es i e) cur (here ∙ m) ∙ sym (pending-missing n es cur m)
      | inr (x, m) ↦
          pending-found n (set es i e) cur (here ∙ m)
          ∙ ap (λ l. slot_events x ++ l) rest
          ∙ sym (pending-found n es cur m)
    ]

get_elem?-some :
    {A : Type 0} (xs : List A) (i : ℕ) → i < length xs → (a : A) × (get_elem? xs i ≡ some a)
get_elem?-some [] i h = absurd (omega arith)
get_elem?-some (x ∷ xs) zero h = (x, refl)
get_elem?-some (x ∷ xs) (suc i) h = get_elem?-some xs i (omega arith)

-- How one call of `next` ends, where `n` slots are left: nothing is pending, or the first pending event
-- is returned and the rest is pending afterwards, on `n'` slots.
data NextIs (n : ℕ) (pe : PollEvents) : Run (PollEvents × Option PollEvent) → Type 0 where
  finished :
      (pe' : PollEvents) → pending n pe.events pe.cur_event ≡ [] → NextIs n pe (done (pe', none))
  reported :
      (pe' : PollEvents) (e : PollEvent) (n' : ℕ)
      → pending n pe.events pe.cur_event ≡ e ∷ pending n' pe'.events pe'.cur_event
      → Known n' pe'.events pe'.cur_event
      → pe'.nb_events ≡ pe.nb_events
      → pe'.cur_event + n' ≡ pe.cur_event + n
      → NextIs n pe (done (pe', some e))

set-Known :
    (n : ℕ) (es : List EpollEvent) (cur : ℕ) (e e' : EpollEvent)
    → Known n es cur
    → get_elem? es cur ≡ some e
    → e'.data_ ≡ e.data_
    → Known n (set es cur e') cur
set-Known n es cur e e' k there same = record {
  exist = omega (arith, k.exist, length-set es cur e');
  ids = λ j x at. elim (ℕ_discrete cur j) [
    | yes p ↦
        let now = get_elem?-set_self es cur e' (get_elem?-lt es cur there) in
        let eq : e' ≡ x = ground arith in omega (arith, ap EpollEvent.data_ eq, k.ids cur e there)
    | no p ↦ k.ids j x (sym (get_elem?-set_ne es cur j e' p) ∙ at)
  ];
}

-- A device slot from which the first event `e` is removed.
rewritten-NextIs :
    (n : ℕ) (pe : PollEvents) (slot : EpollEvent) (flags : EpollFlags) (e : PollEvent)
    → Known (suc n) pe.events pe.cur_event
    → get_elem? pe.events pe.cur_event ≡ some slot
    → slot_events slot ≡ e ∷ slot_events (record slot { events = flags })
    → done (rewrite_slot pe slot flags, some e) ≡ next_from (suc n) pe
    → NextIs (suc n) pe (next_from (suc n) pe)
rewritten-NextIs n pe slot flags e k there first answer =
    let slot' : EpollEvent = record slot { events = flags } in
    let es : List EpollEvent = pe.events in
    let c : ℕ = pe.cur_event in
    let now = get_elem?-set_self es c slot' (get_elem?-lt es c there) in
    subst (NextIs (suc n) pe) answer (
      reported (rewrite_slot pe slot flags) e (suc n)
        (pending-found n es c there
          ∙ ap (λ l. l ++ pending n es (c + 1)) first
          ∙ ap (λ l. e ∷ slot_events slot' ++ l)
              (sym (pending-set n es (c + 1) c slot' (omega arith)))
          ∙ ap (λ l. e ∷ l) (sym (pending-found n (set es c slot') c now)))
        (set-Known (suc n) es c slot slot' k there refl) refl refl)

skipped-NextIs :
    (n : ℕ) (pe : PollEvents) {o : Run (PollEvents × Option PollEvent)}
    → NextIs n (record pe { cur_event = pe.cur_event + 1 }) o
    → pending (suc n) pe.events pe.cur_event ≡ pending n pe.events (pe.cur_event + 1)
    → NextIs (suc n) pe o
skipped-NextIs n pe (finished pe' z) eq = finished pe' (eq ∙ z)
skipped-NextIs n pe (reported pe' e n' z k same total) eq =
    reported pe' e n' (eq ∙ z) k same (omega arith)

next_from-NextIs :
    (n : ℕ) (pe : PollEvents) → Known n pe.events pe.cur_event → NextIs n pe (next_from n pe)
unfolding next_from pending
next_from-NextIs zero pe k = finished pe refl
next_from-NextIs (suc n) pe k =
    let (slot, there) = get_elem?-some pe.events pe.cur_event (omega (arith, k.exist)) in
    let bound : slot.data_ ≤ device_id = k.ids pe.cur_event slot there in
    let after : PollEvents = record pe { cur_event = pe.cur_event + 1 } in
    let left : Known n pe.events (pe.cur_event + 1) = record {
      exist = omega (arith, k.exist);
      ids = k.ids;
    } in
    elim (ℕ_discrete slot.data_ device_id) [
      | no ne ↦
          let answer : done (after, some (waker slot.data_)) ≡ next_from (suc n) pe =
            ground arith in
          let first : slot_events slot ≡ waker slot.data_ ∷ [] = ground arith in
          subst (NextIs (suc n) pe) answer (
            reported after _ n
              (pending-found n pe.events pe.cur_event there
                ∙ ap (λ l. l ++ pending n pe.events (pe.cur_event + 1)) first)
              left refl (omega arith))
      | yes eq ↦ elim (Bool-cases slot.events.epollout) [
        | inl o ↦
            rewritten-NextIs n pe slot (record (slot.events) { epollout = false })
              (device output_ready) k there (ground arith) (ground arith)
        | inr o ↦ elim (Bool-cases slot.events.epollin) [
          | inl i ↦
              rewritten-NextIs n pe slot (record (slot.events) { epollin = false })
                (device capture_ready) k there (ground arith) (ground arith)
          | inr i ↦ elim (Bool-cases slot.events.epollpri) [
            | inl x ↦
                rewritten-NextIs n pe slot (record (slot.events) { epollpri = false })
                  (device v4l2_event) k there (ground arith) (ground arith)
            | inr x ↦
                let answer : next_from n after ≡ next_from (suc n) pe = ground arith in
                let none_here : slot_events slot ≡ [] = ground arith in
                let moved =
                  pending-found n pe.events pe.cur_event there
                  ∙ ap (λ l. l ++ pending n pe.events (pe.cur_event + 1)) none_here in
                subst (NextIs (suc n) pe) answer
                  (skipped-NextIs n pe (next_from-NextIs n after left) moved)
          ]
        ]
      ]
    ]

-- The items that calling `next` until it returns `None` collects, in at most `fuel` calls.
unfoldable pub drain : ℕ → PollEvents → Option (List PollEvent)
drain zero pe = none
drain (suc fuel) pe = elim (next pe) [
  | panicked ↦ none
  | done (pe', o) ↦
      let rest = drain fuel pe' in
      elim o [ none ↦ some [] | some e ↦ elim rest [ none ↦ none | some es ↦ some (e ∷ es) ] ]
]

next-left : (n : ℕ) (pe : PollEvents) → pe.nb_events ≡ pe.cur_event + n → next pe ≡ next_from n pe
unfolding next
next-left n pe h = ap (λ k. next_from k pe) (omega (arith, h))

drained :
    (fuel n : ℕ) (pe : PollEvents) {o : Run (PollEvents × Option PollEvent)}
    → next pe ≡ o
    → NextIs n pe o
    → pe.nb_events ≡ pe.cur_event + n
    → length (pending n pe.events pe.cur_event) < fuel
    → drain fuel pe ≡ some (pending n pe.events pe.cur_event)
unfolding drain
drained zero n pe eq is here few = absurd (omega arith)
drained (suc fuel) n pe eq (finished pe' z) here few = ground (arith, eq, z)
drained (suc fuel) n pe eq (reported pe' e n' z k same total) here few =
    let next_n : next pe' ≡ next_from n' pe' = next-left n' pe' (omega arith) in
    let rest =
      drained fuel n' pe' next_n (next_from-NextIs n' pe' k) (omega arith)
        (omega (arith, ap length z)) in
    ground (arith, eq, z, rest)

slot_events-length : (e : EpollEvent) → length (slot_events e) ≤ 3
slot_events-length e = ground arith

pending-length : (n : ℕ) (es : List EpollEvent) (cur : ℕ) → length (pending n es cur) ≤ 3 * n
unfolding pending
pending-length zero es cur = omega arith
pending-length (suc n) es cur = elim (Option-cases (get_elem? es cur)) [
  | inl m ↦ omega (arith, ap length (pending-missing n es cur m))
  | inr (e, m) ↦ omega (
    arith,
    ap length (pending-found n es cur m),
    length-append (slot_events e) (pending n es (cur + 1)),
    slot_events-length e,
    pending-length n es (cur + 1),
  )
]

-- If the `nb` slots that `epoll_wait` filled exist and carry the id of the device or of a waker,
-- calling `next` on them ends within `3 * nb + 1` calls and never panics. It yields, slot by slot, the
-- id of a waker, or the events of the device, OUTPUT before CAPTURE before V4L2 events, each once.
pub next-drains :
    (nb : ℕ) (es : List EpollEvent)
    → Known nb es 0
    → drain (3 * nb + 1) (record { events = es; nb_events = nb; cur_event = 0 })
      ≡ some (pending nb es 0)
next-drains nb es k =
    let pe : PollEvents = record { events = es; nb_events = nb; cur_event = 0 } in
    drained (3 * nb + 1) nb pe (next-left nb pe (omega arith)) (next_from-NextIs nb pe k)
      (omega arith) (omega (arith, pending-length nb es 0))
