-- ===== src/Decoder/Capture/Commands/Enqueueing.antt =====
-- lib/src/decoder/stateful/capture_thread.rs: the loop that queues the free CAPTURE buffers.
use v4l2r.Base.{
  ℕ, ◌+◌, ◌≤◌, ◌≡◌, refl, sym, ap, ◌∙◌, ◌≢◌, ◌⊎◌, inl, inr, subst, true, false, List, Option, none,
  some, Result, ok, err, Run, done, bind, arith, length, get_elem?,
}
use native.Mathlib.Decide.{ℕ_discrete}
use v4l2r.Ioctl.Buffer.{V4l2Plane, UncheckedBuffer, video_max_planes}
use v4l2r.Memory.{BufferHandles, FillsPlanes}
use v4l2r.Queue.Buffers.{BufferState, BufferInfo, free, pre_queue, is_free, is_queued}
use v4l2r.Queue.Allocated.{Allocated, num_free_buffers, num_queued_buffers}
use v4l2r.Queue.Allocated.Counters.{Agree, one_if}
use v4l2r.Queue.Allocated.Counting.{Changed-counters}
use v4l2r.Queue.Allocated.Changed.{Changed, Changed-restores}
use v4l2r.Queue.Allocated.Obtain.{
  Obtained, GotFree, no_free_buffer, got, try_get_free_buffer-GotFree,
}
use v4l2r.Queue.Queueing.{
  Errno, QBuffer, QueueError, QBufIoctlError, other, new_qbuffer, queue_capture,
}
use v4l2r.Queue.Queueing.Outcome.{
  Reserved, Ends, accepted, kernel_refused, refused, queue_capture-Ends,
}
use v4l2r.Queue.Creation.{QueueBase}
use v4l2r.Queue.Provider.{GetFreeBufferError, GetSuitableBufferError, try_get_free, any_suitable}

-- Each buffer carries its position and has as many planes as V4L2 allows.
pub record Fits {H : Type 0} (q : Allocated H) : Type 0 where
  pub index_at :
      (j : ℕ) (x : BufferInfo H) → get_elem? q.buffer_info j ≡ some x → x.features.index ≡ j
  pub some_planes :
      (j : ℕ) (x : BufferInfo H) → get_elem? q.buffer_info j ≡ some x → 1 ≤ length x.features.planes
  pub few_planes :
      (j : ℕ) (x : BufferInfo H)
      → get_elem? q.buffer_info j ≡ some x
      → length x.features.planes ≤ video_max_planes

module _ {H : Type 0} where
  -- A buffer of a queue has the features of a buffer that was there before the change.
  same_features :
      {i : ℕ} {q q' : Allocated H} {b : BufferInfo H} {s : BufferState H}
      → Changed i q q' b s
      → (j : ℕ) (x : BufferInfo H) → get_elem? q'.buffer_info j ≡ some x
      → (y : BufferInfo H) × (get_elem? q.buffer_info j ≡ some y) × (y.features ≡ x.features)
  same_features {i} {q} {q'} {b} {s} c j x e = elim (ℕ_discrete i j) [
    | yes p ↦
        let there : get_elem? q'.buffer_info j ≡ some (record b { state = s }) =
          subst (λ k. get_elem? q'.buffer_info k ≡ some (record b { state = s })) p c.now in
        (
          b,
          subst (λ k. get_elem? q.buffer_info k ≡ some b) p c.found,
          (let same : b.features ≡ x.features = ground arith in same),
        )
    | no p ↦ (x, sym (c.others j p) ∙ e, refl)
  ]

  Changed-Fits :
      {i : ℕ} {q q' : Allocated H} {b : BufferInfo H} {s : BufferState H}
      → Changed i q q' b s
      → Fits q
      → Fits q'
  Changed-Fits c f = record {
    index_at = λ j x e.
        let (y, e', same) = same_features c j x e in
        subst (λ z. z.index ≡ j) same (f.index_at j y e');
    some_planes = λ j x e.
        let (y, e', same) = same_features c j x e in
        subst (λ z. 1 ≤ length z.planes) same (f.some_planes j y e');
    few_planes = λ j x e.
        let (y, e', same) = same_features c j x e in
        subst (λ z. length z.planes ≤ video_max_planes) same (f.few_planes j y e');
  }

  -- What `get_suitable_buffer_for` gives by default.
  pub data Suits (q : Allocated H)
      : Run (Allocated H × Result GetSuitableBufferError QBuffer) → Type 0 where
    none_suits :
        num_free_buffers q ≡ 0
        → Suits q (done (q, err (try_get_free GetFreeBufferError.no_free_buffer)))
    suits :
        (i : ℕ) (q' : Allocated H) (x : BufferInfo H)
        → 1 ≤ num_free_buffers q
        → Obtained i q q' x
        → Suits q (done (q', ok (new_qbuffer q' i x)))

  pub any_suitable-Suits :
      (q : Allocated H) → Agree q.buffer_info q.stats → Suits q (any_suitable H q)
  unfolding any_suitable
  any_suitable-Suits q a = go (try_get_free_buffer-GotFree q a)
    where
      go :
          {r : Run (Allocated H × Option (ℕ × BufferInfo H))}
          → GotFree q r
          → Suits q (
              bind r λ r. done (
                r.0,
                elim r.1 [
                  | none ↦ err (try_get_free GetFreeBufferError.no_free_buffer)
                  | some (i, b) ↦ ok (new_qbuffer r.0 i b)
                ],
              ))
      go (no_free_buffer z) = none_suits z
      go (got i q' b z o) = suits i q' b z o

  reserved :
      (q q' : Allocated H) (i : ℕ) (x : BufferInfo H)
      → Fits q
      → Obtained i q q' x
      → Reserved i q' (record x { state = pre_queue }) (new_qbuffer q' i x)
  unfolding new_qbuffer
  reserved q q' i x f o = record {
    found = o.change.now;
    is_reserved = refl;
    index = f.index_at i x o.change.found;
    fuse = refl;
  }

  module _ (b : BufferHandles H) (laws : FillsPlanes b)
      (kernel : ℕ → UncheckedBuffer → Result Errno (Unit {0})) (base : QueueBase) (waker : ℕ) where
    -- How a turn that found a buffer can end: it is queued, so that one buffer less is free; or it is
    -- as free as before, because the kernel refused it or the handles did not fit.
    pub data Turned (turn : ℕ) (q : Allocated H) (x : BufferInfo H) (handles : H)
        : Run (Allocated H × Result (QueueError H) (Unit {0})) → Type 0 where
      took :
          (u : UncheckedBuffer) (q' : Allocated H)
          → kernel turn u ≡ ok tt
          → num_free_buffers q' + 1 ≡ num_free_buffers q
          → num_queued_buffers q' ≡ num_queued_buffers q + 1
          → Agree q'.buffer_info q'.stats
          → Fits q'
          → ((j : ℕ) (y : BufferInfo H)
              → get_elem? q'.buffer_info j ≡ some y
              → (z : BufferInfo H) × (get_elem? q.buffer_info j ≡ some z)
                × (z.features ≡ y.features))
          → Turned turn q x handles (done (q', ok tt))
      gave_back :
          (e : QBufIoctlError)
          → ((u : UncheckedBuffer) × (n : ℕ) × (kernel turn u ≡ err n))
            ⊎ (b.len handles ≢ length x.features.planes)
          → Turned turn q x handles (done (q, err (record { error = e; plane_handles = handles })))

    module _ (turn : ℕ) (q q' : Allocated H) (i : ℕ) (x : BufferInfo H) (handles : H) (f : Fits q)
        (a : Agree q.buffer_info q.stats) (o : Obtained i q q' x) where
      freed :
          (q'' : Allocated H) (e : QBufIoctlError)
          → Changed i q' q'' (record x { state = pre_queue }) free
          → ((u : UncheckedBuffer) × (n : ℕ) × (kernel turn u ≡ err n))
            ⊎ (b.len handles ≢ length x.features.planes)
          → Turned turn q x handles
              (done (q'', err (record { error = e; plane_handles = handles })))
      freed q'' e c why =
          let same : q'' ≡ q =
            Changed-restores i q q' q'' x (record x { state = pre_queue }) pre_queue free o.change c
              o.was_free a in
          rw same (gave_back e why)

      turned :
          {Refused : QBufIoctlError → Type 0} {Built : List V4l2Plane → Type 0}
          {r : Run (Allocated H × Result (QueueError H) (Unit {0}))}
          → ((e : QBufIoctlError) → Refused e → b.len handles ≢ length x.features.planes)
          → Ends
              (kernel turn)
              base.type_
              q.memory_type
              (reserved q q' i x f o)
              handles
              Refused
              Built
              r
          → Turned turn q x handles r
      turned why (accepted planes u q'' built handed e c) =
          let (free1, queued1) = Changed-counters o.change a in
          let (free2, queued2) = Changed-counters c (o.change.agree a) in
          let was : is_free x.state ≡ true = ap is_free o.was_free in
          let was' : is_queued x.state ≡ false = ap is_queued o.was_free in
          took u q'' e (omega (arith, ap one_if was, free1, free2))
            (omega (arith, ap one_if was', queued1, queued2)) (c.agree (o.change.agree a))
            (Changed-Fits c (Changed-Fits o.change f))
            (λ j y e'.
              let (z, e1, same1) = same_features c j y e' in
              let (z', e2, same2) = same_features o.change j z e1 in (z', e2, same2 ∙ same1))
      turned why (kernel_refused planes u q'' e built handed k c) =
          freed q'' (other e) c (inl (u, e, k))
      turned why (refused q'' e ne c) = freed q'' e c (inr (why e ne))

    pub queue_suited :
        (turn : ℕ) (q q' : Allocated H) (i : ℕ) (x : BufferInfo H) (handles : H)
        → Fits q
        → Agree q.buffer_info q.stats
        → Obtained i q q' x
        → Turned turn q x handles
            (queue_capture (kernel turn) base.type_ q.memory_type b q' (new_qbuffer q' i x) handles)
    unfolding new_qbuffer
    queue_suited turn q q' i x handles f a o =
        turned turn q q' i x handles f a o (λ e ne. ne.0)
          (queue_capture-Ends (kernel turn) base.type_ q.memory_type (reserved q q' i x f o) handles
            b laws (f.some_planes i x o.change.found) (f.few_planes i x o.change.found))
