-- ===== src/Poller/Waking.antt =====
-- lib/src/device/poller.rs: the wakers of a poller.
use v4l2r.Base.{
  ℕ, zero, suc, ◌%◌, ◌^◌, ◌≡◌, refl, sym, ap, ◌∙◌, Bool, true, false, List, [], ◌∷◌, Option, none,
  some, Result, ok, err, arith, Bool-cases, Option-cases, inl, inr, ltb, ◌==◌, ==_refl, get_elem?,
  if◌then◌else◌,
}
use v4l2r.Poller.{
  Errno, EpollEvent, device_id, Waker, Poller, PollError, lookup, remove, add_waker, remove_waker,
  reset, update_waker, reset_wakers, device_error, poll,
}

-- If a waker was added and epoll lets it go, removing it returns it and leaves the poller as it
-- was before it was added.
pub remove_waker-add_waker :
    (id : ℕ) (eventfd add : Result Errno (Unit {0})) (p : Poller) {p' : Poller} {w : Waker}
    → add_waker id eventfd add p ≡ (p', ok w)
    → remove_waker id (ok tt) p' ≡ (p, ok w)
unfolding add_waker remove_waker lookup remove
remove_waker-add_waker id eventfd add p {p'} {w} h = ground (arith, ==_refl id)

-- Whether an event of a poll is a signal of the waker `id`.
unfoldable pub signaled : ℕ → List EpollEvent → Bool
signaled id [] = false
signaled id (e ∷ es) =
    if ltb e.data_ device_id
    then if id == (e.data_ % 2 ^ 32) then true else signaled id es
    else signaled id es

-- A waker after a poll: its counter is 0 if it was signaled.
abbrev pub reset_if : Bool → Option Waker → Option Waker
reset_if true (some w) = some (record { counter = 0 })
reset_if true none = none
reset_if false w = w

lookup-update_waker :
    (f : Waker → Waker) (id j : ℕ) (ws : List (ℕ × Waker))
    → lookup j (update_waker f id ws)
      ≡ (if j == id then elim (lookup j ws) [ none ↦ none | some w ↦ some (f w) ] else lookup j ws)
unfolding lookup update_waker
lookup-update_waker f id j [] = ground arith
lookup-update_waker f id j ((i, w) ∷ ws) = ground (arith, lookup-update_waker f id j ws)

reset_none : (b : Bool) → reset_if b none ≡ none
reset_none b = ground arith

reset_twice : (b : Bool) (x : Waker) → reset_if b (some (reset x)) ≡ some (reset x)
unfolding reset
reset_twice b x = ground arith

-- What resetting the wakers leaves for each id, if no read fails.
reset_wakers-lookup :
    (read : ℕ → Result Errno (Unit {0})) (es : List EpollEvent) (ws : List (ℕ × Waker)) (id : ℕ)
    → (reset_wakers read es ws).1 ≡ ok tt
    → lookup id (reset_wakers read es ws).0 ≡ reset_if (signaled id es) (lookup id ws)
unfolding reset_wakers signaled reset
reset_wakers-lookup read [] ws id h = refl
reset_wakers-lookup read (e ∷ es) ws id h = elim (Bool-cases (ltb e.data_ device_id)) [
  | inr b ↦ ground (arith, reset_wakers-lookup read es ws id)
  | inl b ↦ elim (Option-cases (lookup w ws)) [
    | inl n ↦ elim (Bool-cases (id == w)) [
      | inl p ↦
          let here : id ≡ w = ground arith in
          let gone : lookup id ws ≡ none = rw here n in
          ground (arith, reset_wakers-lookup read es ws id, reset_none (signaled id es))
      | inr p ↦ ground (arith, reset_wakers-lookup read es ws id)
    ]
    | inr (x, n) ↦ go (reset_wakers-lookup read es ws' id) x n b (read w) refl
  ]
]
  where
    w : ℕ
    w = e.data_ % 2 ^ 32

    ws' : List (ℕ × Waker)
    ws' = update_waker reset w ws

    go :
        ((reset_wakers read es ws').1 ≡ ok tt
          → lookup id (reset_wakers read es ws').0 ≡ reset_if (signaled id es) (lookup id ws'))
        → (x : Waker) → lookup w ws ≡ some x
        → ltb e.data_ device_id ≡ true
        → (r : Result Errno (Unit {0})) → read w ≡ r
        → lookup id (reset_wakers read (e ∷ es) ws).0
          ≡ reset_if (signaled id (e ∷ es)) (lookup id ws)
    go ih x n b (err y) r = absurd (ground arith)
    go ih x n b (ok _) r =
        let rest = ih (ground arith) in
        let ans : (reset_wakers read (e ∷ es) ws).0 ≡ (reset_wakers read es ws').0 = ground arith in
        elim (Bool-cases (id == w)) [
          | inl p ↦
              let here : id ≡ w = ground arith in
              let old : lookup id ws ≡ some x = rw here n in
              let new : lookup id ws' ≡ some (reset x) =
                ground (arith, lookup-update_waker reset w id ws) in
              let sig : signaled id (e ∷ es) ≡ true = ground arith in
              ap (lookup id) ans ∙ rest ∙ rw (new, sig, old) (reset_twice (signaled id es) x)
          | inr p ↦
              let new : lookup id ws' ≡ lookup id ws =
                ground (arith, lookup-update_waker reset w id ws) in
              let sig : signaled id (e ∷ es) ≡ signaled id es = ground arith in
              ap (lookup id) ans ∙ rest ∙ rw (new, sig) refl
        ]

no_device_error :
    (es : List EpollEvent)
    → device_error es ≡ false
    → (j : ℕ) (e : EpollEvent) → get_elem? es j ≡ some e
    → e.data_ ≡ device_id
    → e.events.epollerr ≡ false
unfolding device_error
no_device_error [] d j e h k = absurd (cc)
no_device_error (x ∷ es) d zero e h k = ground arith
no_device_error (x ∷ es) d (suc j) e h k = no_device_error es (ground arith) j e h k

-- What a poll that succeeds leaves.
pub record Polled (wait : Result Errno (List EpollEvent)) (p p' : Poller) (es : List EpollEvent)
    : Type 0 where
  pub answered : wait ≡ ok es
  pub no_error :
      (j : ℕ) (e : EpollEvent)
      → get_elem? es j ≡ some e
      → e.data_ ≡ device_id
      → e.events.epollerr ≡ false
  pub wakers_reset : (id : ℕ) → lookup id p'.wakers ≡ reset_if (signaled id es) (lookup id p.wakers)
  pub same_registered : p'.registered ≡ p.registered

-- If `poll` succeeds, it returns what `epoll_wait` answered, in which no event of the device has
-- EPOLLERR; the counter of every waker that an event signals is 0, every other waker is as before, and
-- what epoll listens to does not change.
pub poll-ok :
    (wait : Result Errno (List EpollEvent)) (read : ℕ → Result Errno (Unit {0})) (p : Poller)
    {p' : Poller} {es : List EpollEvent}
    → poll wait read p ≡ (p', ok es)
    → Polled wait p p' es
unfolding poll
poll-ok (err e) read p h = absurd (ground arith)
poll-ok (ok es₀) read p {p'} {es} h = go (reset_wakers read es₀ p.wakers) refl
  where
    go :
        (r : List (ℕ × Waker) × Result PollError (Unit {0}))
        → reset_wakers read es₀ p.wakers ≡ r
        → Polled (ok es₀) p p' es
    go (ws, err x) e = absurd (ground arith)
    go (ws, ok _) e = elim (Bool-cases (device_error es₀)) [
      | inl d ↦ absurd (ground arith)
      | inr d ↦
          let same : es₀ ≡ es = ground arith in
          let left : ws ≡ p'.wakers = ground arith in
          let run : (reset_wakers read es₀ p.wakers).1 ≡ ok tt = ground arith in
          let list : (reset_wakers read es₀ p.wakers).0 ≡ p'.wakers = ground arith in
          record {
            answered = ap ok same;
            no_error = no_device_error es (rw (← same) d);
            wakers_reset = λ id.
                ap (lookup id) (sym list)
                ∙ reset_wakers-lookup read es₀ p.wakers id run
                ∙ ap (λ l. reset_if (signaled id l) (lookup id p.wakers)) same;
            same_registered = ground arith;
          }
    ]
