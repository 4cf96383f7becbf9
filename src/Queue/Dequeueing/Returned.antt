-- ===== src/Queue/Dequeueing/Returned.antt =====
-- lib/src/device/queue.rs and queue/dqbuf.rs: what dequeueing a buffer and dropping it leave.
use v4l2r.Base.{
  ℕ, ◌≡◌, refl, ◌≢◌, true, false, none, some, Result, ok, Run, done, panicked, arith, get_elem?,
  subst, Option-cases, Bool-cases, inl, inr,
}
use v4l2r.Ioctl.Buffer.{V4l2Buffer}
use v4l2r.Queue.Buffers.{BufferState, free, pre_queue, dequeued, queued, BufferInfo, is_queued}
use v4l2r.Queue.Allocated.{Allocated, WeakInfo, update_at, set_free}
use v4l2r.Queue.Allocated.Counters.{updated}
use v4l2r.Queue.Allocated.Changed.{
  Changed, updated-Changed, update_at-found, trigger_live, trigger_stale,
}
use v4l2r.Queue.Dequeueing.{
  DqBufError, DqBuffer, take_handles_of, new_dqbuffer, try_dequeue, drop_dqbuffer, run_callbacks,
}

module _ {P : Type 0} where
  -- What `try_dequeue` answers when the kernel returns the buffer `buf`.
  pub data Dequeues (q : Allocated P) (buf : V4l2Buffer)
      : Run (Allocated P × Result DqBufError (DqBuffer P)) → Type 0 where
    returned :
        (q' : Allocated P) (b : BufferInfo P) (handles : P)
        → b.state ≡ queued handles
        → Changed buf.buffer.index q q' b dequeued
        → Dequeues q buf (done (q', ok (new_dqbuffer q' buf.buffer.index handles buf)))
    inconsistent :
        ((b : BufferInfo P)
          → get_elem? q.buffer_info buf.buffer.index ≡ some b
          → is_queued b.state ≡ false)
        → Dequeues q buf panicked

  queued_handles : (s : BufferState P) → is_queued s ≡ true → (handles : P) × (s ≡ queued handles)
  queued_handles (queued handles) e = (handles, refl)
  queued_handles free e = absurd (cc)
  queued_handles pre_queue e = absurd (cc)
  queued_handles dequeued e = absurd (cc)

  not_queued-taken : (s : BufferState P) → is_queued s ≡ false → (take_handles_of s).1 ≡ none
  not_queued-taken s e = ground arith

  pub run_returned :
      (q : Allocated P) (buf : V4l2Buffer) {b : BufferInfo P} (handles : P)
      → get_elem? q.buffer_info buf.buffer.index ≡ some b
      → b.state ≡ queued handles
      → let q' = updated take_handles_of buf.buffer.index b q in
        done (q', ok (new_dqbuffer q' buf.buffer.index handles buf)) ≡ try_dequeue (ok buf) q
  unfolding try_dequeue
  run_returned q buf {b} handles e s =
      ground (arith, update_at-found take_handles_of buf.buffer.index q e)

  -- When the kernel returns a buffer, `try_dequeue` panics exactly if the queue has no buffer of that
  -- index that is queued. Otherwise it returns the handles that the buffer was queued with, and that
  -- buffer becomes dequeued, with no other change.
  pub try_dequeue-Dequeues :
      (q : Allocated P) (buf : V4l2Buffer) → Dequeues q buf (try_dequeue (ok buf) q)
  unfolding try_dequeue update_at
  try_dequeue-Dequeues q buf = elim (Option-cases (get_elem? q.buffer_info buf.buffer.index)) [
    | inl e ↦
        let answer : panicked ≡ try_dequeue (ok buf) q = ground arith in
        subst (Dequeues q buf) answer (inconsistent (λ b e'. absurd (ground arith)))
    | inr (b, e) ↦ elim (Bool-cases (is_queued b.state)) [
      | inl k ↦
          let (handles, s) = queued_handles b.state k in
          let change = updated-Changed take_handles_of buf.buffer.index q e in
          subst (Dequeues q buf) (run_returned q buf handles e s) (
            returned _ b handles s (
              subst
                (λ x.
                  Changed buf.buffer.index q (updated take_handles_of buf.buffer.index b q) b
                    (take_handles_of x).0)
                s change))
      | inr k ↦
          let answer : panicked ≡ try_dequeue (ok buf) q = ground (
            arith,
            update_at-found take_handles_of buf.buffer.index q e,
            not_queued-taken b.state k,
          ) in
          subst (Dequeues q buf) answer (inconsistent (λ b' e'. ground arith))
    ]
  ]

  -- Dropping the `DqBuffer` of a buffer that the queue still has frees that buffer, with no other
  -- change, and runs its callbacks.
  pub drop_dqbuffer-frees :
      (q : Allocated P) (i : ℕ) {b : BufferInfo P} (dq : DqBuffer P)
      → get_elem? q.buffer_info i ≡ some b
      → dq.fuse ≡ some (record { alloc = q.alloc; slot = i })
      → Changed i q (drop_dqbuffer dq q).0 b free
        × ((drop_dqbuffer dq q).1 ≡ run_callbacks dq.drop_callbacks)
  unfolding drop_dqbuffer
  drop_dqbuffer-frees q i {b} dq e f =
      let freed : (drop_dqbuffer dq q).0 ≡ updated set_free i b q =
        rw (f, trigger_live i q e) refl in
      (rw freed (updated-Changed set_free i q e), refl)

  -- A `DqBuffer` that outlives the buffers it came from changes no state when it is dropped, even if new
  -- buffers were allocated at the same positions; its callbacks run all the same.
  pub drop_dqbuffer-stale :
      (q : Allocated P) (w : WeakInfo) (dq : DqBuffer P)
      → dq.fuse ≡ some w
      → w.alloc ≢ q.alloc
      → drop_dqbuffer dq q ≡ (q, run_callbacks dq.drop_callbacks)
  unfolding drop_dqbuffer
  drop_dqbuffer-stale q w dq f ne = rw (f, trigger_stale w q ne) refl
