-- ===== src/Queue/Allocated/Counters.antt =====
-- lib/src/device/queue.rs and buffer.rs: the counters and the states of the buffers.
use v4l2r.Base.{
  ℕ, zero, suc, ◌+◌, ◌-◌, ◌≤◌, ◌<◌, ◌≡◌, Bool, List, [], ◌∷◌, some, arith, if◌then◌else◌, get_elem?,
  set, length, length-set, Option-cases, inl, inr, subst,
}
use v4l2r.Queue.Buffers.{
  BufferState, free, pre_queue, dequeued, queued, BufferStats, BufferInfo, update_state, leave,
  enter, is_free, is_queued, usize_mod,
}
use v4l2r.Queue.Allocated.{Allocated, update_at}

abbrev pub one_if : Bool → ℕ
one_if b = if b then 1 else 0

pub one_if-le : (b : Bool) → one_if b ≤ 1
one_if-le b = ground arith

module _ {P : Type 0} where
  -- How many states pass a test.
  unfoldable pub count : (BufferState P → Bool) → List (BufferInfo P) → ℕ
  count test [] = 0
  count test (b ∷ rest) = one_if (test b.state) + count test rest

  -- The counters are the numbers of free and of queued buffers.
  pub record Agree (infos : List (BufferInfo P)) (stats : BufferStats) : Type 0 where
    pub frees : stats.num_free ≡ count is_free infos
    pub queueds : stats.num_queued ≡ count is_queued infos
    pub small : length infos < usize_mod

  pub count-le :
      (test : BufferState P → Bool) (infos : List (BufferInfo P)) → count test infos ≤ length infos
  unfolding count
  count-le test [] = omega arith
  count-le test (b ∷ rest) = ground (arith, count-le test rest)

  count-set :
      (test : BufferState P → Bool) (infos : List (BufferInfo P)) (i : ℕ) {b : BufferInfo P}
      (b' : BufferInfo P)
      → get_elem? infos i ≡ some b
      → count test (set infos i b') + one_if (test b.state)
        ≡ count test infos + one_if (test b'.state)
  unfolding count
  count-set test [] i b' h = absurd (cc)
  count-set test (x ∷ rest) zero b' h = ground arith
  count-set test (x ∷ rest) (suc i) {b} b' h = ground (arith, count-set test rest i {b = b} b' h)

  -- What the other buffers count: a buffer of the list is counted once, and leaves room for it.
  count-others :
      (test : BufferState P → Bool) (infos : List (BufferInfo P)) (i : ℕ) {b : BufferInfo P}
      → get_elem? infos i ≡ some b
      → (one_if (test b.state) ≤ count test infos)
        × (count test infos + 1 ≤ length infos + one_if (test b.state))
  unfolding count
  count-others test [] i h = absurd (cc)
  count-others test (x ∷ rest) zero h = ground (arith, count-le test rest)
  count-others test (x ∷ rest) (suc i) {b} h = ground (arith, count-others test rest i {b = b} h)

  -- Leaving a state and entering another one moves the two counters by one each, without wrapping.
  pub enter-leave :
      (s s' : BufferState P) (stats : BufferStats) (f k : ℕ)
      → stats.num_free ≡ f + one_if (is_free s)
      → stats.num_queued ≡ k + one_if (is_queued s)
      → f + 1 < usize_mod
      → k + 1 < usize_mod
      → ((enter s' (leave s stats)).num_free ≡ f + one_if (is_free s'))
        × ((enter s' (leave s stats)).num_queued ≡ k + one_if (is_queued s'))
  unfolding enter leave
  enter-leave free free stats f k hf hk lf lk = omega arith
  enter-leave (queued _) free stats f k hf hk lf lk = omega arith
  enter-leave pre_queue free stats f k hf hk lf lk = omega arith
  enter-leave dequeued free stats f k hf hk lf lk = omega arith
  enter-leave free (queued _) stats f k hf hk lf lk = omega arith
  enter-leave (queued _) (queued _) stats f k hf hk lf lk = omega arith
  enter-leave pre_queue (queued _) stats f k hf hk lf lk = omega arith
  enter-leave dequeued (queued _) stats f k hf hk lf lk = omega arith
  enter-leave free pre_queue stats f k hf hk lf lk = omega arith
  enter-leave (queued _) pre_queue stats f k hf hk lf lk = omega arith
  enter-leave pre_queue pre_queue stats f k hf hk lf lk = omega arith
  enter-leave dequeued pre_queue stats f k hf hk lf lk = omega arith
  enter-leave free dequeued stats f k hf hk lf lk = omega arith
  enter-leave (queued _) dequeued stats f k hf hk lf lk = omega arith
  enter-leave pre_queue dequeued stats f k hf hk lf lk = omega arith
  enter-leave dequeued dequeued stats f k hf hk lf lk = omega arith

  module _ (infos : List (BufferInfo P)) (stats : BufferStats) (i : ℕ) {b : BufferInfo P}
      (s' : BufferState P) (here : get_elem? infos i ≡ some b) (a : Agree infos stats) where
    others_free :
        (one_if (is_free b.state) ≤ count is_free infos)
        × (count is_free infos + 1 ≤ length infos + one_if (is_free b.state))
    others_free = count-others is_free infos i here

    others_queued :
        (one_if (is_queued b.state) ≤ count is_queued infos)
        × (count is_queued infos + 1 ≤ length infos + one_if (is_queued b.state))
    others_queued = count-others is_queued infos i here

    moved :
        let f = count is_free infos - one_if (is_free b.state) in
        let k = count is_queued infos - one_if (is_queued b.state) in
        ((enter s' (leave b.state stats)).num_free ≡ f + one_if (is_free s'))
        × ((enter s' (leave b.state stats)).num_queued ≡ k + one_if (is_queued s'))
    moved =
        enter-leave b.state s' stats _ _ (omega (arith, others_free.0, a.frees))
          (omega (arith, others_queued.0, a.queueds)) (omega (arith, others_free, a.small))
          (omega (arith, others_queued, a.small))

    pub update_slot-Agree :
        Agree (set infos i (record b { state = s' })) (enter s' (leave b.state stats))
    update_slot-Agree = record {
      frees =
          omega (
            arith,
            moved.0,
            others_free.0,
            count-set is_free infos i (record b { state = s' }) here,
          );
      queueds = omega (
        arith,
        moved.1,
        others_queued.0,
        count-set is_queued infos i (record b { state = s' }) here,
      );
      small = omega (arith, a.small, length-set infos i (record b { state = s' }));
    }

  -- The queue after `update_state` with `f` on its buffer `b` at position `i`.
  abbrev pub updated {ℓ} :
      {R : Type ℓ}
      → (BufferState P → BufferState P × R)
      → ℕ
      → BufferInfo P
      → Allocated P
      → Allocated P
  updated f i b q = record q {
    buffer_info = set q.buffer_info i (record b { state = (f b.state).0 });
    stats = enter (f b.state).0 (leave b.state q.stats);
  }

  -- `update_at` finds the buffer, updates it and hands on what the closure returned.
  pub update_at-some {ℓ} :
      {R : Type ℓ} (f : BufferState P → BufferState P × R) (i : ℕ) (q : Allocated P)
      {q' : Allocated P} {r : R}
      → update_at f i q ≡ some (q', r)
      → (b : BufferInfo P) × (get_elem? q.buffer_info i ≡ some b)
        × (updated f i b q ≡ q')
        × ((f b.state).1 ≡ r)
  unfolding update_at update_state
  update_at-some f i q {q'} {r} h = elim (Option-cases (get_elem? q.buffer_info i)) [
    | inl e ↦ absurd (ground arith)
    | inr (b, e) ↦ (b, e, ground arith, ground arith)
  ]

  -- Whatever a closure decides for a buffer of the queue, `update_state` leaves counters that agree
  -- with the states of the buffers: neither counter wraps around.
  pub update_at-Agree {ℓ} :
      {R : Type ℓ} (f : BufferState P → BufferState P × R) (i : ℕ) (q : Allocated P)
      {q' : Allocated P} {r : R}
      → update_at f i q ≡ some (q', r)
      → Agree q.buffer_info q.stats
      → Agree q'.buffer_info q'.stats
  update_at-Agree f i q h a =
      let (b, e, u, _) = update_at-some f i q h in
      subst (λ x. Agree x.buffer_info x.stats) u
        (update_slot-Agree q.buffer_info q.stats i (f b.state).0 e a)
