-- ===== src/Poller/Keyed.antt =====
-- lib/src/device/poller.rs: the map of the wakers has each id once.
use v4l2r.Base.{
  ℕ, ◌≡◌, refl, ◌≢◌, Bool, List, [], ◌∷◌, none, some, Result, ok, arith, ◌==◌, inl, inr, Bool-cases,
}
use v4l2r.Poller.{
  Errno, DeviceEvent, Waker, Poller, lookup, remove, add_waker, remove_waker,
  update_device_registration, assign_event, set_event, update_waker,
}

pub data Keyed : List (ℕ × Waker) → Type 0 where
  no_wakers : Keyed []
  one_more :
      {i : ℕ} {w : Waker} {ws : List (ℕ × Waker)}
      → lookup i ws ≡ none
      → Keyed ws
      → Keyed ((i, w) ∷ ws)

pub lookup-remove_ne :
    (i j : ℕ) (ws : List (ℕ × Waker)) → i ≢ j → lookup j (remove i ws) ≡ lookup j ws
unfolding lookup remove
lookup-remove_ne i j [] ne = refl
lookup-remove_ne i j ((k, w) ∷ ws) ne = ground (arith, lookup-remove_ne i j ws ne)

pub lookup-remove_self : (i : ℕ) (ws : List (ℕ × Waker)) → Keyed ws → lookup i (remove i ws) ≡ none
unfolding lookup remove
lookup-remove_self i [] no_wakers = refl
lookup-remove_self i ((k, w) ∷ ws) (one_more e u) = ground (arith, lookup-remove_self i ws u)

missing_after_removal :
    (i j : ℕ) (ws : List (ℕ × Waker)) → lookup j ws ≡ none → lookup j (remove i ws) ≡ none
unfolding lookup remove
missing_after_removal i j [] h = refl
missing_after_removal i j ((k, w) ∷ ws) h = ground (arith, missing_after_removal i j ws)

pub remove-Keyed : (i : ℕ) {ws : List (ℕ × Waker)} → Keyed ws → Keyed (remove i ws)
unfolding remove
remove-Keyed i no_wakers = no_wakers
remove-Keyed i {ws = (k, w) ∷ ws} (one_more e u) = elim (Bool-cases (k == i)) [
  | inl b ↦ rw b u
  | inr b ↦ rw b (one_more (missing_after_removal i k ws e) (remove-Keyed i u))
]

pub missing_after_update :
    (f : Waker → Waker) (i j : ℕ) (ws : List (ℕ × Waker))
    → lookup j ws ≡ none
    → lookup j (update_waker f i ws) ≡ none
unfolding lookup update_waker
missing_after_update f i j [] h = refl
missing_after_update f i j ((k, w) ∷ ws) h = ground (arith, missing_after_update f i j ws)

pub present_after_update :
    (f : Waker → Waker) (i j : ℕ) (ws : List (ℕ × Waker)) {w : Waker}
    → lookup j ws ≡ some w
    → (w' : Waker) × (lookup j (update_waker f i ws) ≡ some w')
unfolding lookup update_waker
present_after_update f i j [] h = absurd (cc)
present_after_update f i j ((k, x) ∷ ws) {w} h = elim (Bool-cases (k == i)) [
  | inl b ↦ elim (Bool-cases (k == j)) [ inl c ↦ (f x, ground arith) | inr c ↦ (w, ground arith) ]
  | inr b ↦ elim (Bool-cases (k == j)) [
    | inl c ↦ (w, ground arith)
    | inr c ↦ let (w', e) = present_after_update f i j ws (rw c at h) in (w', ground arith)
  ]
]

pub update_waker-Keyed :
    (f : Waker → Waker) (i : ℕ) {ws : List (ℕ × Waker)} → Keyed ws → Keyed (update_waker f i ws)
unfolding update_waker
update_waker-Keyed f i no_wakers = no_wakers
update_waker-Keyed f i {ws = (k, w) ∷ ws} (one_more e u) = elim (Bool-cases (k == i)) [
  | inl b ↦ rw b (one_more e u)
  | inr b ↦ rw b (one_more (missing_after_update f i k ws e) (update_waker-Keyed f i u))
]

-- What a successful `add_waker` leaves: the id was free, and nothing else of the poller changes.
pub add_waker-ok :
    (id : ℕ) (eventfd add : Result Errno (Unit {0})) (p : Poller) {p' : Poller} {w : Waker}
    → add_waker id eventfd add p ≡ (p', ok w)
    → (lookup id p.wakers ≡ none) × (p' ≡ record p { wakers = (id, w) ∷ p.wakers })
unfolding add_waker
add_waker-ok id eventfd add p h = (ground arith, ground arith)

-- What a successful `remove_waker` leaves.
pub remove_waker-ok :
    (id : ℕ) (delete : Result Errno (Unit {0})) (p : Poller) {p' : Poller} {w : Waker}
    → remove_waker id delete p ≡ (p', ok w)
    → (lookup id p.wakers ≡ some w) × (p' ≡ record p { wakers = remove id p.wakers })
unfolding remove_waker
remove_waker-ok id delete p h = (ground arith, ground arith)

assign-wakers : (e : DeviceEvent) (b : Bool) (p : Poller) → (assign_event e b p).wakers ≡ p.wakers
unfolding assign_event
assign-wakers e b p = ground arith

-- `set_event` changes no waker.
pub set_event-wakers :
    (modify : Result Errno (Unit {0})) (e : DeviceEvent) (b : Bool) (p : Poller)
    → (set_event modify e b p).0.wakers ≡ p.wakers
unfolding set_event update_device_registration
set_event-wakers modify e b p = ground (arith, assign-wakers e b p)
