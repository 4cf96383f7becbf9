-- ===== src/Decoder/Capture/Commands/Terminating.antt =====
-- lib/src/decoder/stateful/capture_thread.rs: whether the loop that queues the free CAPTURE buffers
-- ends.
use v4l2r.Base.{
  ℕ, zero, suc, ◌+◌, ◌≤◌, ◌<◌, ◌≡◌, refl, sym, ap, ◌∙◌, subst, inl, inr, Option, none, some, Result,
  ok, err, Run, done, arith, length, get_elem?,
}
use v4l2r.Ioctl.Buffer.{UncheckedBuffer}
use v4l2r.Memory.{BufferHandles, FillsPlanes}
use v4l2r.Queue.Buffers.{BufferInfo}
use v4l2r.Queue.Allocated.{Allocated, num_free_buffers, num_queued_buffers}
use v4l2r.Queue.Allocated.Counters.{Agree}
use v4l2r.Queue.Allocated.Obtain.{Obtained}
use v4l2r.Queue.Queueing.{Errno, QBuffer, QueueError, new_qbuffer, queue_capture}
use v4l2r.Queue.Creation.{QueueBase}
use v4l2r.Queue.Provider.{GetSuitableBufferError, any_suitable, HandlesProvider, mmap_provider}
use v4l2r.Decoder.Capture.Commands.{queued_or_dropped, enqueue}
use v4l2r.Decoder.Capture.Commands.Enqueueing.{
  Fits, Suits, none_suits, suits, any_suitable-Suits, Turned, took, gave_back, queue_suited,
}

-- Each buffer of the queue has `n` planes.
pub record Planes {H : Type 0} (n : ℕ) (q : Allocated H) : Type 0 where
  pub same_len :
      (j : ℕ) (x : BufferInfo H) → get_elem? q.buffer_info j ≡ some x → length x.features.planes ≡ n

module _ {V H : Type 0} where
  -- A provider that leaves the choice of the buffer to the queue, as the default does, whose states are
  -- sound: a sound state gives only handles of `n` planes, takes such handles back, and stays sound.
  pub record Supplies (p : HandlesProvider V H) (b : BufferHandles H) (n : ℕ) (Sound : V → Type 0)
      : Type 0 where
    pub chooses_any :
        (handles : H) (v : V) (q : Allocated H)
        → p.get_suitable_buffer_for handles v q ≡ any_suitable H q
    pub gives :
        (waker : ℕ) (v : V)
        → Sound v
        → Sound (p.provide waker v).0
          × ((handles : H) → (p.provide waker v).1 ≡ some handles → b.len handles ≡ n)
    pub takes_back :
        (handles : H) (v : V)
        → b.len handles ≡ n
        → Sound v
        → (v' : V) × (p.discard handles v ≡ done v') × Sound v'

  -- The provider is asked for handles `k` times, and gives them each time.
  pub data Given (p : HandlesProvider V H) (waker : ℕ) : ℕ → V → V → Type 0 where
    given_none : {v : V} → Given p waker 0 v v
    given_one :
        {k : ℕ} {v v' last : V} (handles : H)
        → p.provide waker v ≡ (v', some handles)
        → Given p waker k v' last
        → Given p waker (suc k) v last

  -- Why the loop stops in the state `last` of the provider: it has no handles; or it has, but no buffer is
  -- free, and the handles are dropped.
  pub data Stopped (p : HandlesProvider V H) (waker : ℕ) (q : Allocated H) (last left : V)
      : Type 0 where
    no_handles : p.provide waker last ≡ (left, none) → Stopped p waker q last left
    no_buffer :
        {v' : V} (handles : H)
        → num_free_buffers q ≡ 0
        → p.provide waker last ≡ (v', some handles)
        → p.discard handles v' ≡ done left
        → Stopped p waker q last left

  -- How the loop ends: as many buffers are queued as the provider gave handles, and it stopped for one
  -- of these reasons.
  pub record Enqueued (p : HandlesProvider V H) (waker : ℕ) (v : V) (q : Allocated H)
      (r : Option (Run (V × Allocated H))) : Type 0 where
    pub provider_left : V
    pub queue_left : Allocated H
    pub result : r ≡ some (done (provider_left, queue_left))
    pub agree : Agree queue_left.buffer_info queue_left.stats
    pub times : ℕ
    pub last : V
    pub given : Given p waker times v last
    pub now_free : num_free_buffers queue_left + times ≡ num_free_buffers q
    pub now_queued : num_queued_buffers queue_left ≡ num_queued_buffers q + times
    pub stopped : Stopped p waker queue_left last provider_left

  module _ (p : HandlesProvider V H) (b : BufferHandles H) (n : ℕ) (Sound : V → Type 0)
      (supplies : Supplies p b n Sound) (laws : FillsPlanes b)
      (kernel : ℕ → UncheckedBuffer → Result Errno (Unit {0}))
      (accepts : (turn : ℕ) (u : UncheckedBuffer) → kernel turn u ≡ ok tt) (base : QueueBase)
      (waker : ℕ) where
    -- The loop, once the provider has answered.
    module _ (fuel turn : ℕ) (v : V) (q : Allocated H) (a : Agree q.buffer_info q.stats)
        (f : Fits q) (s : Planes n q) (sound : Sound v)
        (rest : (v' : V) (q' : Allocated H)
          → num_free_buffers q' + 1 ≡ num_free_buffers q
          → Agree q'.buffer_info q'.stats
          → Fits q'
          → Planes n q'
          → Sound v'
          → Enqueued p waker v' q' (enqueue p b fuel kernel base waker (suc turn) v' q')) where
      queued_one :
          (v' : V) (handles : H) (q' : Allocated H) (i : ℕ) (x : BufferInfo H)
          → p.provide waker v ≡ (v', some handles)
          → Sound v'
          → b.len handles ≡ n
          → any_suitable H q ≡ done (q', ok (new_qbuffer q' i x))
          → Obtained i q q' x
          → (r : Run (Allocated H × Result (QueueError H) (Unit {0})))
          → queue_capture (kernel turn) base.type_ q.memory_type b q' (new_qbuffer q' i x) handles
            ≡ r
          → Turned b laws kernel base waker turn q x handles r
          → Enqueued p waker v q (enqueue p b (suc fuel) kernel base waker turn v q)
      unfolding enqueue queued_or_dropped
      queued_one v' handles q' i x e sound' len c o r e' (took u q'' k free queued a' f' same) =
          let planes : Planes n q'' = record {
            same_len = λ j y at.
                let (z, there, eq) = same j y at in
                ap (λ w. length w.planes) (sym eq) ∙ s.same_len j z there;
          } in
          let after = rest v' q'' free a' f' planes sound' in
          record {
            provider_left = after.provider_left;
            queue_left = after.queue_left;
            result = ground (arith, e, supplies.chooses_any handles v' q, c, e', after.result);
            agree = after.agree;
            times = suc after.times;
            last = after.last;
            given = given_one handles e after.given;
            now_free = omega (arith, after.now_free, free);
            now_queued = omega (arith, after.now_queued, queued);
            stopped = after.stopped;
          }
      queued_one v' handles q' i x e sound' len c o r e' (gave_back x' (inl (u, m, k))) =
          absurd (ground (arith, accepts turn u))
      queued_one v' handles q' i x e sound' len c o r e' (gave_back x' (inr ne)) =
          absurd (ne (len ∙ sym (s.same_len i x o.change.found)))

      found_or_not :
          (v' : V) (handles : H)
          → p.provide waker v ≡ (v', some handles)
          → Sound v'
          → b.len handles ≡ n
          → (r : Run (Allocated H × Result GetSuitableBufferError QBuffer)) → any_suitable H q ≡ r
          → Suits q r
          → Enqueued p waker v q (enqueue p b (suc fuel) kernel base waker turn v q)
      unfolding enqueue
      found_or_not v' handles e sound' len r c (none_suits z) =
          let (v'', d, _) = supplies.takes_back handles v' len sound' in
          record {
            provider_left = v'';
            queue_left = q;
            result = ground (arith, e, supplies.chooses_any handles v' q, c, d);
            agree = a;
            times = 0;
            last = v;
            given = given_none;
            now_free = omega arith;
            now_queued = omega arith;
            stopped = no_buffer handles z e d;
          }
      found_or_not v' handles e sound' len r c (suits i q' x z o) =
          queued_one v' handles q' i x e sound' len c o _ refl
            (queue_suited b laws kernel base waker turn q q' i x handles f a o)

      provided :
          (r : V × Option H)
          → p.provide waker v ≡ r
          → Enqueued p waker v q (enqueue p b (suc fuel) kernel base waker turn v q)
      unfolding enqueue
      provided (v', none) e = record {
        provider_left = v';
        queue_left = q;
        result = ground (arith, e);
        agree = a;
        times = 0;
        last = v;
        given = given_none;
        now_free = omega arith;
        now_queued = omega arith;
        stopped = no_handles e;
      }
      provided (v', some handles) e =
          let (sound', lens) = supplies.gives waker v sound in
          found_or_not v' handles e (subst Sound (ap (λ r. r.0) e) sound')
            (lens handles (ap (λ r. r.1) e)) (any_suitable H q) refl (any_suitable-Suits q a)

    -- Take a provider that lets the queue choose and gives handles of `n` planes, of which it takes
    -- dropped ones back. If the kernel accepts every buffer, the counters agree, and the buffers
    -- carry their positions and have `n` planes, a valid number, then the loop of
    -- `enqueue_capture_buffers` ends, within one turn more than there are free buffers, without a
    -- panic. As many buffers went from free to queued as the provider gave handles for, the
    -- counters still agree with the states, and the loop stopped because the provider, in the state
    -- after these handles, had no more of them, or because it had but no buffer was free, and these
    -- handles were dropped.
    pub enqueue-Enqueued :
        (fuel turn : ℕ) (v : V) (q : Allocated H)
        → num_free_buffers q < fuel
        → Agree q.buffer_info q.stats
        → Fits q
        → Planes n q
        → Sound v
        → Enqueued p waker v q (enqueue p b fuel kernel base waker turn v q)
    enqueue-Enqueued zero turn v q lt a f s sound = absurd (omega arith)
    enqueue-Enqueued (suc fuel) turn v q lt a f s sound =
        provided fuel turn v q a f s sound
          (λ v' q' less a' f' s' sound'.
            enqueue-Enqueued fuel (suc turn) v' q' (omega arith) a' f' s' sound')
          (p.provide waker v) refl

module _ {H : Type 0} (b : BufferHandles H) (laws : FillsPlanes b)
    (kernel : ℕ → UncheckedBuffer → Result Errno (Unit {0}))
    (refuses : (n : ℕ) (u : UncheckedBuffer) → (e : ℕ) × (kernel n u ≡ err e)) (base : QueueBase)
    (waker : ℕ) where
  again :
      (fuel turn : ℕ) (v : H) (q q' : Allocated H) (i : ℕ) (x : BufferInfo H)
      → any_suitable H q ≡ done (q', ok (new_qbuffer q' i x))
      → enqueue (mmap_provider H) b fuel kernel base waker (suc turn) v q ≡ none
      → (r : Run (Allocated H × Result (QueueError H) (Unit {0})))
      → queue_capture (kernel turn) base.type_ q.memory_type b q' (new_qbuffer q' i x) v ≡ r
      → Turned b laws kernel base waker turn q x v r
      → enqueue (mmap_provider H) b (suc fuel) kernel base waker turn v q ≡ none
  unfolding enqueue queued_or_dropped mmap_provider
  again fuel turn v q q' i x c rest r e (took u q'' k free queued a f same) =
      let (n, no_way) = refuses turn u in absurd (ground arith)
  again fuel turn v q q' i x c rest r e (gave_back x' why) = ground (arith, c, e, rest)

  -- With an `MmapProvider`, which has handles without end, the loop of `enqueue_capture_buffers`
  -- does not end within any number of turns, if a buffer is free, the kernel refuses every QBUF,
  -- the counters agree, and the buffers carry their positions and have a valid number of planes.
  pub enqueue-never_ends :
      (fuel turn : ℕ) (v : H) (q : Allocated H)
      → 1 ≤ num_free_buffers q
      → Agree q.buffer_info q.stats
      → Fits q
      → enqueue (mmap_provider H) b fuel kernel base waker turn v q ≡ none
  unfolding enqueue
  enqueue-never_ends zero turn v q some_free a f = refl
  enqueue-never_ends (suc fuel) turn v q some_free a f =
      go (enqueue-never_ends fuel (suc turn) v q some_free a f) (any_suitable H q) refl
        (any_suitable-Suits q a)
    where
      go :
          enqueue (mmap_provider H) b fuel kernel base waker (suc turn) v q ≡ none
          → (r : Run (Allocated H × Result GetSuitableBufferError QBuffer)) → any_suitable H q ≡ r
          → Suits q r
          → enqueue (mmap_provider H) b (suc fuel) kernel base waker turn v q ≡ none
      go rest r c (none_suits z) = absurd (omega arith)
      go rest r c (suits i q' x z o) =
          again fuel turn v q q' i x c rest _ refl
            (queue_suited b laws kernel base waker turn q q' i x v f a o)
