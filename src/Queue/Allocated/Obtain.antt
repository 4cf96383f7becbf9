-- ===== src/Queue/Allocated/Obtain.antt =====
-- lib/src/device/queue.rs: obtaining a buffer by its index, or any free one.
use v4l2r.Base.{
  ℕ, zero, suc, ◌+◌, ◌≤◌, ◌<◌, ◌≡◌, refl, ap, ◌⊎◌, true, false, List, [], ◌∷◌, Option, none, some,
  ok, err, Run, done, panicked, arith, length, get_elem?, set, Option-cases, Bool-cases, inl, inr,
  subst, subst₂,
}
use v4l2r.Queue.Buffers.{
  QueryBuffer, BufferState, free, pre_queue, dequeued, queued, BufferStats, BufferInfo, new_info,
  update_state, leave, enter, is_free, is_queued, usize_mod,
}
use v4l2r.Queue.Allocated.{
  Allocated, TryGetBufferError, invalid_index, already_used, update_at, register, take_free,
  try_obtain_buffer, find_free, try_get_free_buffer_during, try_get_free_buffer, num_free_buffers,
}
use v4l2r.Queue.Allocated.Counters.{count, Agree, updated, count-le}
use v4l2r.Queue.Allocated.Changed.{Changed, updated-Changed}

-- `request_buffers_generic`: the counters of a fresh queue agree with its buffers, which are all free.
pub register-Agree :
    (P : Type 0) (fs : List QueryBuffer) (stats : BufferStats)
    → stats.num_free + length fs < usize_mod
    → let (infos, stats') = register {P = P} fs stats in
      (stats'.num_free ≡ stats.num_free + length fs)
      × (stats'.num_queued ≡ stats.num_queued)
      × (count is_free infos ≡ length fs)
      × (count is_queued infos ≡ 0)
      × (length infos ≡ length fs)
unfolding register new_info count
register-Agree P [] stats h = ground arith
register-Agree P (f ∷ fs) stats h =
    ground (arith, register-Agree P fs (record stats { num_free = stats.num_free + 1 }))

module _ {P : Type 0} where
  set_self :
      (infos : List (BufferInfo P)) (i : ℕ) {b : BufferInfo P}
      → get_elem? infos i ≡ some b
      → set infos i b ≡ infos
  set_self [] i h = refl
  set_self (x ∷ infos) zero h = ground arith
  set_self (x ∷ infos) (suc i) h = ap (◌∷◌ x) (set_self infos i h)

  -- What obtaining the buffer `i` leaves.
  pub record Obtained (i : ℕ) (q q' : Allocated P) (b : BufferInfo P) : Type 0 where
    pub was_free : b.state ≡ free
    pub change : Changed i q q' b pre_queue

  try_obtain_buffer-cases :
      (q : Allocated P) (i : ℕ)
      → ((get_elem? q.buffer_info i ≡ none) × (try_obtain_buffer q i ≡ (q, err (invalid_index i))))
        ⊎ ((b : BufferInfo P) × (get_elem? q.buffer_info i ≡ some b)
            × (b.state ≡ free)
            × (try_obtain_buffer q i ≡ (updated take_free i b q, ok b)))
        ⊎ ((b : BufferInfo P) × (get_elem? q.buffer_info i ≡ some b)
            × (is_free b.state ≡ false)
            × (try_obtain_buffer q i ≡ (updated take_free i b q, err already_used)))
  unfolding try_obtain_buffer update_at update_state
  try_obtain_buffer-cases q i = elim (Option-cases (get_elem? q.buffer_info i)) [
    | inl e ↦ inl (e, ground arith)
    | inr (b, e) ↦ elim (Bool-cases (is_free b.state)) [
      | inl f ↦ inr (inl (b, e, ground arith, ground arith))
      | inr f ↦ inr (inr (b, e, f, ground arith))
    ]
  ]

  enter-leave_self :
      (s : BufferState P) (stats : BufferStats)
      → is_free s ≡ false
      → stats.num_queued < usize_mod
      → (is_queued s ≡ true → 1 ≤ stats.num_queued)
      → enter s (leave s stats) ≡ stats
  unfolding enter leave
  enter-leave_self free stats f h k = cc
  enter-leave_self (queued x) stats f h k = ground (arith, k refl)
  enter-leave_self pre_queue stats f h k = refl
  enter-leave_self dequeued stats f h k = refl

  queued-counted :
      (infos : List (BufferInfo P)) (i : ℕ) {b : BufferInfo P}
      → get_elem? infos i ≡ some b
      → is_queued b.state ≡ true
      → 1 ≤ count is_queued infos
  unfolding count
  queued-counted [] i h k = absurd (cc)
  queued-counted (x ∷ infos) zero {b} h k = ground arith
  queued-counted (x ∷ infos) (suc i) {b} h k = omega (arith, queued-counted infos i {b = b} h k)

  take_free-refused : (s : BufferState P) → is_free s ≡ false → (take_free s).0 ≡ s
  take_free-refused s h = ground arith

  updated-refused :
      (q : Allocated P) (i : ℕ) {b : BufferInfo P}
      → get_elem? q.buffer_info i ≡ some b
      → is_free b.state ≡ false
      → Agree q.buffer_info q.stats
      → updated take_free i b q ≡ q
  updated-refused q i {b} e f a =
      rw (take_free-refused b.state f, set_self q.buffer_info i e)
        (ap (λ s. record q { stats = s })
          (enter-leave_self b.state q.stats f
            (omega (arith, a.queueds, a.small, count-le is_queued q.buffer_info))
            (λ k. omega (arith, a.queueds, queued-counted q.buffer_info i e k))))

  updated-Obtained :
      (q : Allocated P) (i : ℕ) {b : BufferInfo P}
      → get_elem? q.buffer_info i ≡ some b
      → b.state ≡ free
      → Obtained i q (updated take_free i b q) b
  updated-Obtained q i {b} e f = record {
    was_free = f;
    change =
        subst (Changed i q (updated take_free i b q) b) (ap (λ s. (take_free s).0) f)
          (updated-Changed take_free i q e);
  }

  -- A buffer is obtained only if it is free; it is then reserved, and no other buffer changes.
  pub try_obtain_buffer-ok :
      (q : Allocated P) (i : ℕ) {q' : Allocated P} {b : BufferInfo P}
      → try_obtain_buffer q i ≡ (q', ok b)
      → Obtained i q q' b
  try_obtain_buffer-ok q i {q'} {b} h = elim (try_obtain_buffer-cases q i) [
    | inl (e, r) ↦ absurd (ground arith)
    | inr (inl (c, e, f, r)) ↦
        let e' : updated take_free i c q ≡ q' = ground arith in
        let e'' : c ≡ b = ground arith in
        subst₂ (λ x y. Obtained i q x y) e' e'' (updated-Obtained q i e f)
    | inr (inr (c, e, f, r)) ↦ absurd (ground arith)
  ]

  -- If `try_obtain_buffer` fails on a queue whose counters agree with its buffers, the queue is
  -- left exactly as it was, and the error is `InvalidIndex` with the index, which is out of
  -- bounds, or `AlreadyUsed` for a buffer that is not free.
  pub try_obtain_buffer-err :
      (q : Allocated P) (i : ℕ) {q' : Allocated P} {x : TryGetBufferError}
      → try_obtain_buffer q i ≡ (q', err x)
      → Agree q.buffer_info q.stats
      → (q' ≡ q)
        × (((x ≡ invalid_index i) × (get_elem? q.buffer_info i ≡ none))
            ⊎ ((x ≡ already_used)
                × ((b : BufferInfo P) × (get_elem? q.buffer_info i ≡ some b)
                    × (is_free b.state ≡ false))))
  try_obtain_buffer-err q i {q'} {x} h a = elim (try_obtain_buffer-cases q i) [
    | inl (e, r) ↦ (ground arith, inl (ground arith, e))
    | inr (inl (c, e, f, r)) ↦ absurd (ground arith)
    | inr (inr (c, e, f, r)) ↦
        (ground (arith, updated-refused q i e f a), inr (ground arith, (c, e, f)))
  ]

  -- Where `find` stops: the first free buffer.
  record FirstFree (i : ℕ) (infos : List (BufferInfo P)) (j : ℕ) : Type 0 where
    offset : ℕ
    at : j ≡ i + offset
    buffer : BufferInfo P
    found : get_elem? infos offset ≡ some buffer
    is_first : buffer.state ≡ free

  find_free-cases :
      (i : ℕ) (infos : List (BufferInfo P))
      → ((find_free i infos ≡ none) × (count is_free infos ≡ 0))
        ⊎ ((j : ℕ) × (find_free i infos ≡ some j) × FirstFree i infos j × (1 ≤ count is_free infos))
  unfolding find_free count
  find_free-cases i [] = inl (refl, refl)
  find_free-cases i (b ∷ rest) = elim (Bool-cases (is_free b.state)) [
    | inl f ↦ inr (
      i,
      ground arith,
      record { offset = 0; at = omega arith; buffer = b; found = refl; is_first = ground arith },
      ground arith,
    )
    | inr f ↦ elim (find_free-cases (suc i) rest) [
      | inl (e, z) ↦ inl (ground arith, ground arith)
      | inr (j, e, w, z) ↦ inr (
        j,
        ground arith,
        record {
          offset = suc w.offset;
          at = omega (arith, w.at);
          buffer = w.buffer;
          found = w.found;
          is_first = w.is_first;
        },
        ground arith,
      )
    ]
  ]

  -- What `try_get_free_buffer` answers while other threads do `others` between its two steps: the queue
  -- as it was, and `NoFreeBuffer`; a buffer that is free after that, reserved; or a panic, as the
  -- buffer that was found is not free after it.
  pub data Contends (others : Allocated P → Allocated P) (q : Allocated P)
      : Run (Allocated P × Option (ℕ × BufferInfo P)) → Type 0 where
    none_found : num_free_buffers q ≡ 0 → Contends others q (done (q, none))
    obtained_found :
        (i : ℕ) (q' : Allocated P) (x b : BufferInfo P)
        → 1 ≤ num_free_buffers q
        → get_elem? q.buffer_info i ≡ some x
        → x.state ≡ free
        → Obtained i (others q) q' b
        → Contends others q (done (q', some (i, b)))
    lost_found :
        (i : ℕ) (x : BufferInfo P)
        → 1 ≤ num_free_buffers q
        → get_elem? q.buffer_info i ≡ some x
        → x.state ≡ free
        → ((b : BufferInfo P)
            → get_elem? (others q).buffer_info i ≡ some b
            → is_free b.state ≡ false)
        → Contends others q panicked

  found_at :
      {j : ℕ} {infos : List (BufferInfo P)}
      → (w : FirstFree 0 infos j) → get_elem? infos j ≡ some w.buffer
  found_at {j} {infos} w =
      let same : w.offset ≡ j = omega (arith, w.at) in
      subst (λ k. get_elem? infos k ≡ some w.buffer) same w.found

  -- If the counters agree with the buffers when it is called, then whatever other threads do to the queue
  -- between its two steps, `try_get_free_buffer` fails exactly when the counter of free buffers was
  -- 0. Otherwise it reserves a buffer that is still free and changes no other one, or it panics,
  -- exactly if the buffer it found free is not free any more.
  pub try_get_free_buffer_during-Contends :
      (others : Allocated P → Allocated P) (q : Allocated P)
      → Agree q.buffer_info q.stats
      → Contends others q (try_get_free_buffer_during others q)
  unfolding try_get_free_buffer_during num_free_buffers
  try_get_free_buffer_during-Contends others q a = elim (find_free-cases 0 q.buffer_info) [
    | inl (e, z) ↦ rw (e, try_get_free_buffer_during) (none_found (omega (arith, a.frees)))
    | inr (j, e, w, z) ↦ elim (try_obtain_buffer-cases (others q) j) [
      | inl (e', r) ↦
          let answer : panicked ≡ try_get_free_buffer_during others q = ground arith in
          subst (Contends others q) answer (
            lost_found j w.buffer (omega (arith, a.frees)) (found_at w) w.is_first
              (λ b h. absurd (ground arith)))
      | inr (inl (c, e', f, r)) ↦
          let answer : done (updated take_free j c (others q), some (j, c))
              ≡ try_get_free_buffer_during others q =
            ground arith in
          subst (Contends others q) answer (
            obtained_found j _ w.buffer c (omega (arith, a.frees)) (found_at w) w.is_first
              (updated-Obtained (others q) j e' f))
      | inr (inr (c, e', f, r)) ↦
          let answer : panicked ≡ try_get_free_buffer_during others q = ground arith in
          subst (Contends others q) answer (
            lost_found j w.buffer (omega (arith, a.frees)) (found_at w) w.is_first
              (λ b h. ground arith))
    ]
  ]

  -- What `try_get_free_buffer` answers, given counters that agree with the states and no other thread:
  -- the queue as it was and `NoFreeBuffer` if the counter of free buffers is 0; otherwise a buffer
  -- that was free, reserved.
  pub data GotFree (q : Allocated P) : Run (Allocated P × Option (ℕ × BufferInfo P)) → Type 0 where
    no_free_buffer : num_free_buffers q ≡ 0 → GotFree q (done (q, none))
    got :
        (i : ℕ) (q' : Allocated P) (b : BufferInfo P)
        → 1 ≤ num_free_buffers q
        → Obtained i q q' b
        → GotFree q (done (q', some (i, b)))

  -- If the counters agree with the buffers and no other thread uses the queue, `try_get_free_buffer` does
  -- not panic.
  pub try_get_free_buffer-GotFree :
      (q : Allocated P) → Agree q.buffer_info q.stats → GotFree q (try_get_free_buffer q)
  unfolding try_get_free_buffer
  try_get_free_buffer-GotFree q a = alone (try_get_free_buffer_during-Contends (λ q. q) q a)
    where
      alone :
          {r : Run (Allocated P × Option (ℕ × BufferInfo P))} → Contends (λ q. q) q r → GotFree q r
      alone (none_found z) = no_free_buffer z
      alone (obtained_found i q' x b z there f o) = got i q' b z o
      alone (lost_found i x z there f lost) =
          let busy : is_free x.state ≡ false = lost x there in absurd (ground arith)
