-- ===== src/Tests/Enqueueing.antt =====
-- The theorems on queueing CAPTURE buffers and on flushing, applied to vectors of one `MmapHandle`.
use v4l2r.Base.{
  ℕ, zero, suc, ◌≤◌, ◌<◌, ◌≡◌, refl, true, false, [], ◌∷◌, none, some, Result, ok, err, done,
  get_elem?, arith, length, subst,
}
use v4l2r.Types.QueueTypes.{mmap}
use v4l2r.Ioctl.Buffer.{UncheckedBuffer}
use v4l2r.Memory.Vectors.{mmap_handle, vector_handles, vector-FillsPlanes}
use v4l2r.Queue.Buffers.{BufferInfo, free, queued}
use v4l2r.Queue.Allocated.{Allocated, num_free_buffers}
use v4l2r.Queue.Allocated.Counters.{Agree}
use v4l2r.Queue.Provider.{HandlesProvider, mmap_provider}
use v4l2r.Decoder.Capture.{decoding, CaptureThread, Answers}
use v4l2r.Decoder.Capture.Commands.{drain, enqueue, flush}
use v4l2r.Decoder.Capture.Commands.Enqueueing.{Fits}
use v4l2r.Decoder.Capture.Commands.Terminating.{
  Planes, Supplies, Enqueued, enqueue-Enqueued, enqueue-never_ends,
}
use v4l2r.Decoder.Capture.Commands.Obliging.{Obliging}
use v4l2r.Decoder.Stateful.Answering.{drain_now, DrainReturns, FlushReturns}
use v4l2r.Decoder.Stateful.Returning.{
  Holds, Flushable, with_buffers, drain-DrainReturns, flush-FlushReturns,
}
use v4l2r.Tests.Capturing.{base, querybuf, last_frame}
use v4l2r.Tests.Fixtures.{Handles, two}

abbrev provider : HandlesProvider Handles Handles
provider = mmap_provider Handles

abbrev mapped : Handles
mapped = mmap_handle ∷ []

abbrev ready : Allocated Handles
ready = two (queued mapped) free 1 1

ready-Agree : Agree ready.buffer_info ready.stats
unfolding v4l2r.Queue.Allocated.Counters.count
ready-Agree = record { frees = refl; queueds = refl; small = omega arith }

abbrev answers : Answers Handles
answers = record {
  receiver_alive = true;
  decoder_cmd = ok tt;
  streamoff = ok tt;
  streamon = ok tt;
  free_answer = ok tt;
  qbuf = λ n u. ok tt;
  events = [];
  dqbuf = ok last_frame;
  modify_first = ok tt;
  modify_second = ok tt;
  delete = ok tt;
  eventfd = ok tt;
  add = ok tt;
  selection = ok tt;
  format = ok tt;
  reply = ok (record { provider = mapped; mem_type = mmap; num_buffers = 2 });
  reqbufs = λ n. ok n;
  querybuf = querybuf;
  name = 7;
}

abbrev thread : CaptureThread Handles Handles
thread = record {
  capture_queue = decoding (record {
    base = base;
    capture_queue = ready;
    provider = mapped;
    cap_buffer_waker = 7;
    blocking_drain_in_progress = false;
  });
  poller = record {
    wakers = [];
    registered = record { epollin = true; epollout = false; epollpri = false; epollerr = false };
    capture_enabled = true;
    output_enabled = false;
    events_enabled = false;
    poll_wakeups_counter = none;
  };
  responses = [];
  emitted = [];
}

-- The provider is sound while its handles have one plane.
abbrev Sound : Handles → Type 0
Sound v = length v ≡ 1

supplies : Supplies provider vector_handles 1 Sound
unfolding mmap_provider v4l2r.Memory.Vectors.vector_len
supplies = record {
  chooses_any = λ handles v q. refl;
  gives = λ waker v sound. (sound, λ handles e. given_len v handles sound e);
  takes_back = λ handles v len sound. (v, refl, sound);
}
  where
    given_len : (v handles : Handles) → length v ≡ 1 → some v ≡ some handles → length handles ≡ 1
    given_len v handles sound e = let same : v ≡ handles = cc e in subst Sound same sound

obliging : Obliging provider answers
unfolding mmap_provider
obliging = record {
  receives = refl;
  takes_command = refl;
  streams_off = refl;
  streams_on = refl;
  takes_back = λ handles v. (v, refl);
}

-- What the loop needs of the queue of two buffers.
ready-Fits : Fits ready
ready-Fits = record { index_at = at; some_planes = some_; few_planes = few }
  where
    at :
        (j : ℕ) (x : BufferInfo Handles)
        → get_elem? ready.buffer_info j ≡ some x
        → x.features.index ≡ j
    at zero x e = ground arith
    at (suc zero) x e = ground arith
    at (suc (suc j)) x e = absurd (cc)

    some_ :
        (j : ℕ) (x : BufferInfo Handles)
        → get_elem? ready.buffer_info j ≡ some x
        → 1 ≤ length x.features.planes
    some_ zero x e = ground arith
    some_ (suc zero) x e = ground arith
    some_ (suc (suc j)) x e = absurd (cc)

    few :
        (j : ℕ) (x : BufferInfo Handles)
        → get_elem? ready.buffer_info j ≡ some x
        → length x.features.planes ≤ 8
    few zero x e = ground arith
    few (suc zero) x e = ground arith
    few (suc (suc j)) x e = absurd (cc)

ready-Planes : Planes 1 ready
ready-Planes = record { same_len = at }
  where
    at :
        (j : ℕ) (x : BufferInfo Handles)
        → get_elem? ready.buffer_info j ≡ some x
        → length x.features.planes ≡ 1
    at zero x e = ground arith
    at (suc zero) x e = ground arith
    at (suc (suc j)) x e = absurd (cc)

ready-Holds : Holds vector_handles 1 ready.buffer_info
unfolding v4l2r.Memory.Vectors.vector_len
ready-Holds = record { held_len = at }
  where
    at :
        (j : ℕ) (x : BufferInfo Handles) (handles : Handles)
        → get_elem? ready.buffer_info j ≡ some x
        → x.state ≡ queued handles
        → length handles ≡ 1
    at zero x handles e s = ground arith
    at (suc zero) x handles e s = absurd (ground arith)
    at (suc (suc j)) x handles e s = absurd (cc)

two_free : num_free_buffers ready < 3
unfolding num_free_buffers
two_free = omega arith

one_free : 1 ≤ num_free_buffers ready
unfolding num_free_buffers
one_free = omega arith

abbrev accept : ℕ → UncheckedBuffer → Result ℕ (Unit {0})
accept n u = ok tt

abbrev refuse_all : ℕ → UncheckedBuffer → Result ℕ (Unit {0})
refuse_all n u = err 5

enqueue-Enqueued_example :
    Enqueued provider 7 mapped ready
      (enqueue provider vector_handles 3 accept base 7 0 mapped ready)
enqueue-Enqueued_example =
    enqueue-Enqueued provider vector_handles 1 Sound supplies vector-FillsPlanes accept
      (λ n u. refl) base 7 3 0 mapped ready two_free ready-Agree ready-Fits ready-Planes refl

enqueue-never_ends_example :
    enqueue provider vector_handles 1000 refuse_all base 7 0 mapped ready ≡ none
enqueue-never_ends_example =
    enqueue-never_ends vector_handles vector-FillsPlanes refuse_all (λ n u. (5, refl)) base 7 1000 0
      mapped ready one_free ready-Agree ready-Fits

drain-DrainReturns_example :
    (t' : CaptureThread Handles Handles) × (drain provider vector_handles answers false thread
      ≡ done t')
    × DrainReturns thread (drain_now thread.capture_queue) t'
drain-DrainReturns_example = drain-DrainReturns provider vector_handles answers obliging thread

flushable : Flushable vector_handles 1 Sound 3 thread.capture_queue
unfolding v4l2r.Queue.Allocated.num_buffers
flushable = with_buffers ready-Agree ready-Fits ready-Planes ready-Holds refl (omega arith)

flush-FlushReturns_example :
    (t' : CaptureThread Handles Handles) × (flush provider vector_handles 3 answers thread
      ≡ some (done t'))
    × FlushReturns thread t'
flush-FlushReturns_example =
    flush-FlushReturns provider vector_handles 1 Sound supplies vector-FillsPlanes answers obliging
      (λ n u. refl) 3 thread flushable
