-- ===== src/Queue/Allocated/Counting.antt =====
-- lib/src/device/queue.rs: the counters of a queue in which one buffer has changed.
use v4l2r.Base.{
  ℕ, zero, suc, ◌+◌, ◌≡◌, ap, ◌≢◌, Bool, List, [], ◌∷◌, some, arith, get_elem?, get_elem?_ext,
}
use v4l2r.Queue.Buffers.{BufferState, BufferInfo, is_free, is_queued}
use v4l2r.Queue.Allocated.{Allocated, num_free_buffers, num_queued_buffers}
use v4l2r.Queue.Allocated.Counters.{count, one_if, Agree}
use v4l2r.Queue.Allocated.Changed.{Changed}

module _ {P : Type 0} where
  count-differ :
      (test : BufferState P → Bool) (xs ys : List (BufferInfo P)) (i : ℕ) {b : BufferInfo P}
      (s : BufferState P)
      → get_elem? xs i ≡ some b
      → get_elem? ys i ≡ some (record b { state = s })
      → ((j : ℕ) → i ≢ j → get_elem? ys j ≡ get_elem? xs j)
      → count test ys + one_if (test b.state) ≡ count test xs + one_if (test s)
  unfolding count
  count-differ test [] ys i s e e' o = absurd (cc)
  count-differ test (x ∷ xs) [] i s e e' o = absurd (cc)
  count-differ test (x ∷ xs) (y ∷ ys) zero {b} s e e' o =
      let tails : ys ≡ xs = get_elem?_ext ys xs (λ j. o (suc j) (λ p. cc p)) in
      let first : x ≡ b = cc e in
      let now : y ≡ record b { state = s } = cc e' in
      let same : count test ys ≡ count test xs = ap (count test) tails in
      let here : one_if (test x.state) ≡ one_if (test b.state) =
        ap (λ z. one_if (test z.state)) first in
      let there : one_if (test y.state) ≡ one_if (test s) = ap (λ z. one_if (test z.state)) now in
      omega (arith, same, here, there)
  count-differ test (x ∷ xs) (y ∷ ys) (suc i) {b} s e e' o =
      let head : some y ≡ some x = o 0 (λ p. cc p) in
      let first : y ≡ x = cc head in
      let same : one_if (test y.state) ≡ one_if (test x.state) =
        ap (λ z. one_if (test z.state)) first in
      omega (
        arith,
        same,
        count-differ test xs ys i {b = b} s e e' (λ j ne. o (suc j) (λ p. ne (pred_eq p))),
      )
    where
      pred_eq : {m n : ℕ} → suc m ≡ suc n → m ≡ n
      pred_eq p = omega arith

  -- The counters move by what the one buffer that changed counts for.
  pub Changed-counters :
      {i : ℕ} {q q' : Allocated P} {b : BufferInfo P} {s : BufferState P}
      → Changed i q q' b s
      → Agree q.buffer_info q.stats
      → (num_free_buffers q' + one_if (is_free b.state) ≡ num_free_buffers q + one_if (is_free s))
        × (num_queued_buffers q' + one_if (is_queued b.state)
            ≡ num_queued_buffers q + one_if (is_queued s))
  unfolding num_free_buffers num_queued_buffers
  Changed-counters {i} {q} {q'} {b} {s} c a =
      let a' = c.agree a in
      (
        omega (
          arith,
          a.frees,
          a'.frees,
          count-differ is_free q.buffer_info q'.buffer_info i {b = b} s c.found c.now c.others,
        ),
        omega (
          arith,
          a.queueds,
          a'.queueds,
          count-differ is_queued q.buffer_info q'.buffer_info i {b = b} s c.found c.now c.others,
        ),
      )
