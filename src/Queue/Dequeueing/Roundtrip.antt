-- ===== src/Queue/Dequeueing/Roundtrip.antt =====
-- lib/src/device/queue.rs, queue/qbuf.rs and queue/dqbuf.rs: a buffer goes to the kernel and back.
use v4l2r.Base.{ℕ, ◌≤◌, ◌≡◌, refl, sym, ◌∙◌, List, some, Result, ok, done, arith, subst}
use v4l2r.Ioctl.Buffer.{V4l2Buffer, UncheckedBuffer, video_max_planes}
use v4l2r.Types.QueueTypes.{QueueType, MemoryType}
use v4l2r.Memory.{BufferHandles, FillsPlanes}
use v4l2r.Queue.Buffers.{BufferState, free, dequeued, queued, BufferInfo}
use v4l2r.Queue.Allocated.{Allocated}
use v4l2r.Queue.Allocated.Counters.{Agree, updated}
use v4l2r.Queue.Allocated.Changed.{Changed, updated-Changed, Changed-restores}
use v4l2r.Queue.Queueing.{Errno, QBuffer, try_get_buffer, queue_output}
use v4l2r.Queue.Queueing.Restore.{Numbered, what_got, queue_output-queues}
use v4l2r.Queue.Dequeueing.{DqBuffer, take_handles_of, new_dqbuffer, try_dequeue, drop_dqbuffer}
use v4l2r.Queue.Dequeueing.Returned.{run_returned, drop_dqbuffer-frees}

module _ {P : Type 0} where
  pub Changed-trans :
      {i : ℕ} {q q' q'' : Allocated P} {b b' : BufferInfo P} {s s' : BufferState P}
      → Changed i q q' b s
      → Changed i q' q'' b' s'
      → Changed i q q'' b s'
  Changed-trans {i} {q} {q'} {q''} {b} {b'} {s} {s'} c d = record {
    found = c.found;
    now = d.now ∙ ground (arith, c.now, d.found);
    others = λ j ne. d.others j ne ∙ c.others j ne;
    same_alloc = d.same_alloc ∙ c.same_alloc;
    same_memory = d.same_memory ∙ c.same_memory;
    agree = λ a. d.agree (c.agree a);
  }

  -- What a buffer that comes back at position `i` gives: its handles, and, once dropped, a free buffer.
  pub record ComesBack (i : ℕ) (q : Allocated P) (buf : V4l2Buffer) (handles : P)
      (original : Allocated P) : Type 0 where
    pub after : Allocated P
    pub dq : DqBuffer P
    pub answer : try_dequeue (ok buf) q ≡ done (after, ok dq)
    pub handles_back : dq.plane_handles ≡ some handles
    pub contents_back : dq.contents ≡ buf
    pub dropped : (drop_dqbuffer dq after).0 ≡ original

  queued-ComesBack :
      (i : ℕ) (q₀ q : Allocated P) {b : BufferInfo P} (handles : P) (buf : V4l2Buffer)
      → Changed i q₀ q b (queued handles)
      → b.state ≡ free
      → buf.buffer.index ≡ i
      → Agree q₀.buffer_info q₀.stats
      → ComesBack i q buf handles q₀
  unfolding new_dqbuffer
  queued-ComesBack i q₀ q {b} handles buf c f at a = record {
    after = q₁;
    dq = dq;
    answer = sym (run_returned q buf handles (rw at c.now) refl);
    handles_back = refl;
    contents_back = refl;
    dropped =
        Changed-restores i q₀ q₁ (drop_dqbuffer dq q₁).0 b _ dequeued free (Changed-trans c taken)
          freed f a;
  }
    where
      b₁ : BufferInfo P
      b₁ = record b { state = queued handles }

      q₁ : Allocated P
      q₁ = updated take_handles_of buf.buffer.index b₁ q

      dq : DqBuffer P
      dq = new_dqbuffer q₁ buf.buffer.index handles buf

      taken : Changed i q q₁ b₁ dequeued
      taken =
          subst (λ j. Changed j q q₁ b₁ dequeued) at
            (updated-Changed take_handles_of buf.buffer.index q (rw at c.now))

      freed : Changed i q₁ (drop_dqbuffer dq q₁).0 (record b₁ { state = dequeued }) free
      freed = (drop_dqbuffer-frees q₁ i dq taken.now (rw at refl)).0

-- Take a queue whose counters agree with its buffers and whose buffers are numbered by position, get a
-- buffer of 1 to `VIDEO_MAX_PLANES` planes, and queue it on OUTPUT with success. When the kernel
-- returns that index, `try_dequeue` succeeds with the kernel's buffer and the very handles that were
-- queued, and dropping the result leaves exactly the queue from which the buffer was got.
pub queue_dequeue_drop :
    {P : Type 0} (kernel : UncheckedBuffer → Result Errno (Unit {0})) (type_ : QueueType)
    (memory : MemoryType) (h : BufferHandles P) (laws : FillsPlanes h) (q : Allocated P) (i : ℕ)
    {q' : Allocated P} {qb : QBuffer} (handles : P) (numbered : Numbered q)
    (got : try_get_buffer q i ≡ (q', ok qb)) (some_planes : 1 ≤ qb.num_planes)
    (few : qb.num_planes ≤ video_max_planes) (bytes_used : List ℕ) {q'' : Allocated P}
    {t : Unit {0}} (buf : V4l2Buffer)
    → Agree q.buffer_info q.stats
    → queue_output kernel type_ memory h q' qb handles bytes_used ≡ done (q'', ok t)
    → buf.buffer.index ≡ i
    → ComesBack i q'' buf handles q
queue_dequeue_drop kernel type_ memory h laws q i {q'} {qb} handles numbered got some_planes few
      bytes_used {q''} buf a eq at =
    let g = what_got kernel type_ memory h laws q i handles numbered got some_planes few in
    queued-ComesBack i q q'' handles buf
      (Changed-trans g.obtained.change (
        queue_output-queues kernel type_ memory h laws q i handles numbered got some_planes few
          bytes_used eq))
      g.obtained.was_free at a
