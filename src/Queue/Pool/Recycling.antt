-- ===== src/Queue/Pool/Recycling.antt =====
-- lib/src/device/queue/handles_provider.rs: the handles that go through the pool, and who
-- waits for one.
use v4l2r.Base.{
  ℕ, zero, suc, ◌+◌, ◌≡◌, refl, ap, Bool, List, [], ◌∷◌, ◌++◌, Option, none, some, done, arith,
  get_elem?, if◌then◌else◌,
}
use v4l2r.Queue.Pool.{Pool, get_handles, drop_handles}

module _ {H : Type 0} where
  -- How many handles pass a test.
  unfoldable pub tally : (H → Bool) → List H → ℕ
  tally test [] = 0
  tally test (h ∷ hs) = (if test h then 1 else 0) + tally test hs

  abbrev pub without : List H → ℕ → List H
  without [] i = []
  without (h ∷ hs) zero = hs
  without (h ∷ hs) (suc i) = h ∷ without hs i

  -- The pool and the handles that are out of it, of which any one can be dropped next.
  pub data Reaches : Pool H → List H → Pool H → List H → Type 0 where
    start : (p : Pool H) (out : List H) → Reaches p out p out
    taken :
        (p₀ p p' : Pool H) (out₀ out : List H) (waker : ℕ) (h : H)
        → Reaches p₀ out₀ p out
        → get_handles waker p ≡ (p', some (record { handles = some h }))
        → Reaches p₀ out₀ p' (h ∷ out)
    empty :
        (p₀ p p' : Pool H) (out₀ out : List H) (waker : ℕ)
        → Reaches p₀ out₀ p out
        → get_handles waker p ≡ (p', none)
        → Reaches p₀ out₀ p' out
    dropped :
        (p₀ p p' : Pool H) (out₀ out : List H) (i : ℕ) (h : H) (woken : Option ℕ)
        → Reaches p₀ out₀ p out
        → get_elem? out i ≡ some h
        → drop_handles (some p) (record { handles = some h }) ≡ done (some p', woken)
        → Reaches p₀ out₀ p' (without out i)

  tally-append :
      (test : H → Bool) (xs ys : List H) → tally test (xs ++ ys) ≡ tally test xs + tally test ys
  unfolding tally
  tally-append test [] ys = omega arith
  tally-append test (x ∷ xs) ys = omega (arith, tally-append test xs ys)

  tally-without :
      (test : H → Bool) (hs : List H) (i : ℕ) (h : H)
      → get_elem? hs i ≡ some h
      → tally test hs ≡ tally test (h ∷ without hs i)
  unfolding tally
  tally-without test [] i h e = absurd (cc)
  tally-without test (x ∷ hs) zero h e = ground arith
  tally-without test (x ∷ hs) (suc i) h e = ground (arith, tally-without test hs i h e)

  taken_buffers :
      (p : Pool H) {p' : Pool H} (waker : ℕ) {h : H}
      → get_handles waker p ≡ (p', some (record { handles = some h }))
      → p.buffers ≡ h ∷ p'.buffers
  unfolding get_handles
  taken_buffers p {p'} waker {h} e = go p.buffers refl
    where
      go : (bs : List H) → p.buffers ≡ bs → p.buffers ≡ h ∷ p'.buffers
      go [] b = absurd (ground arith)
      go (x ∷ bs) b = ground arith

  -- However handles are taken and dropped, in whatever order, none is lost or duplicated: for every
  -- test, the handles that pass it, in the pool and out of it together, stay as many as they were.
  pub Reaches-tally :
      {p₀ p : Pool H} {out₀ out : List H} (test : H → Bool)
      → Reaches p₀ out₀ p out
      → tally test p.buffers + tally test out ≡ tally test p₀.buffers + tally test out₀
  unfolding tally drop_handles get_handles
  Reaches-tally test (start p out) = refl
  Reaches-tally test (taken p₀ p p' out₀ out waker h r e) =
      omega (arith, Reaches-tally test r, ap (tally test) (taken_buffers p waker e))
  Reaches-tally test (empty p₀ p p' out₀ out waker r e) =
      let same : p.buffers ≡ p'.buffers = go p.buffers refl in
      omega (arith, Reaches-tally test r, ap (tally test) same)
    where
      go : (bs : List H) → p.buffers ≡ bs → p.buffers ≡ p'.buffers
      go [] b = ground arith
      go (x ∷ bs) b = absurd (ground arith)
  Reaches-tally test (dropped p₀ p p' out₀ out i h woken r at e) =
      let back : p.buffers ++ h ∷ [] ≡ p'.buffers = ground arith in
      omega (
        arith,
        Reaches-tally test r,
        ap (tally test) back,
        tally-append test p.buffers (h ∷ []),
        tally-without test out i h at,
      )

  -- If `get_handles` finds the pool empty and nobody asks in between, the next handles that are dropped
  -- wake its waker, and the next `get_handles` returns them, whoever calls it.
  pub get_handles-drop_handles :
      (waker other : ℕ) (p : Pool H) {p' : Pool H} (h : H)
      → get_handles waker p ≡ (p', none)
      → (p'' : Pool H) × (drop_handles (some p') (record { handles = some h })
          ≡ done (some p'', some waker))
        × ((get_handles other p'').1 ≡ some (record { handles = some h }))
  unfolding get_handles drop_handles
  get_handles-drop_handles waker other p {p'} h e = go p.buffers refl
    where
      go :
          (bs : List H)
          → p.buffers ≡ bs
          → (p'' : Pool H) × (drop_handles (some p') (record { handles = some h })
              ≡ done (some p'', some waker))
            × ((get_handles other p'').1 ≡ some (record { handles = some h }))
      go [] b = (record { buffers = h ∷ []; waker = none }, ground arith, refl)
      go (x ∷ bs) b = absurd (ground arith)
