-- ===== src/Queue/Protocol/Reaching.antt =====
-- lib/src/device/queue.rs: the steps in the life of the buffers and the states that they reach.
use v4l2r.Base.{ℕ, ◌≡◌, sym, ◌∙◌, Result, arith, get_elem?, subst}
use v4l2r.Ioctl.Buffer.{UncheckedBuffer}
use v4l2r.Types.QueueTypes.{QueueType, MemoryType}
use v4l2r.Memory.{BufferHandles, FillsPlanes}
use v4l2r.Queue.Allocated.{Allocated}
use v4l2r.Queue.Allocated.Cancel.{cancel_queued_buffers_total}
use v4l2r.Queue.Queueing.{Errno, try_get_buffer}
use v4l2r.Queue.Queueing.Outcome.{queue_output-Ends, queue_capture-Ends}
use v4l2r.Queue.Queueing.Restore.{Ends-ok, Ends-err, try_get_buffer-Got}
use v4l2r.Queue.Dequeueing.{stream_off}
use v4l2r.Queue.Dequeueing.Returned.{try_dequeue-Dequeues, drop_dqbuffer-frees}
use v4l2r.Queue.Protocol.{
  Holder, withdrawn, Step, get, get_refused, submit_output, submit_output_failed, submit_capture,
  submit_capture_failed, abandon, dequeue, drop_dequeued, stop, Reachable, start, next,
}
use v4l2r.Queue.Protocol.Invariant.{
  Invariant, Changed-Invariant, preparer-Reserved, refused_same, abandoned, dequeued_change,
  holder_at-reader, released-Invariant, Fresh-Invariant,
}

module _ {P : Type 0} (h : BufferHandles P) (laws : FillsPlanes h)
    (kernel : UncheckedBuffer → Result Errno (Unit {0})) (type_ : QueueType)
    (memory : MemoryType) where
  Step-Invariant :
      {q q' : Allocated P} {w w' : ℕ → Holder}
      → Step h kernel type_ memory q w q' w'
      → Invariant q w
      → Invariant q' w'
  unfolding try_get_buffer stream_off
  Step-Invariant (get q q' w i qb e) inv =
      Changed-Invariant inv (try_get_buffer-Got q i e).obtained.change
  Step-Invariant (get_refused q q' w i x e) inv =
      subst (λ y. Invariant y w) (refused_same q i e inv.agree) inv
  Step-Invariant (submit_output q q' w i qb handles bytes_used t holds f e) inv =
      let (b, r) = preparer-Reserved inv holds f in
      Changed-Invariant inv (
        Ends-ok kernel type_ memory r handles _ _
          (queue_output-Ends kernel type_ memory r handles h laws f.some_planes f.few_planes
            bytes_used)
          e)
  Step-Invariant (submit_output_failed q q' w i qb handles bytes_used x holds f e) inv =
      let (b, r) = preparer-Reserved inv holds f in
      Changed-Invariant inv
        (Ends-err kernel type_ memory r handles _ _
          (queue_output-Ends kernel type_ memory r handles h laws f.some_planes f.few_planes
            bytes_used)
          e).0
  Step-Invariant (submit_capture q q' w i qb handles t holds f e) inv =
      let (b, r) = preparer-Reserved inv holds f in
      Changed-Invariant inv (
        Ends-ok kernel type_ memory r handles _ _
          (queue_capture-Ends kernel type_ memory r handles h laws f.some_planes f.few_planes) e)
  Step-Invariant (submit_capture_failed q q' w i qb handles x holds f e) inv =
      let (b, r) = preparer-Reserved inv holds f in
      Changed-Invariant inv
        (Ends-err kernel type_ memory r handles _ _
          (queue_capture-Ends kernel type_ memory r handles h laws f.some_planes f.few_planes) e).0
  Step-Invariant (abandon q w i qb holds f) inv =
      let (b, r) = preparer-Reserved inv holds f in Changed-Invariant inv (abandoned r)
  Step-Invariant (dequeue q q' w buf dq holds e) inv =
      Changed-Invariant inv (dequeued_change (try_dequeue-Dequeues q buf) e).1
  Step-Invariant (drop_dequeued q w i dq holds f) inv =
      let (b, there, s) =
        holder_at-reader (get_elem? q.buffer_info i) (sym (inv.matches i) ∙ holds) in
      Changed-Invariant inv (drop_dqbuffer-frees q i dq there f).0
  Step-Invariant (stop q q' w canceled e) inv =
      let (q₁, run, infos, same, a, none_left) = cancel_queued_buffers_total q inv.agree in
      let eq : q₁ ≡ q' = ground arith in
      subst (λ y. Invariant y (λ j. withdrawn (w j))) eq (released-Invariant q q₁ w inv infos a)

  -- In every reachable state, whatever the order of the steps and the answers of the kernel, the
  -- counters are the numbers of free and of queued buffers, each buffer carries the index of its
  -- position, and its state tells who holds it.
  pub Reachable-Invariant :
      {q : Allocated P} {w : ℕ → Holder} → Reachable h kernel type_ memory q w → Invariant q w
  Reachable-Invariant (start q f) = Fresh-Invariant q f
  Reachable-Invariant (next q q' w w' r s) = Step-Invariant s (Reachable-Invariant r)
