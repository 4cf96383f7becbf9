-- ===== src/Decoder/Stateful/Returning.antt =====
-- lib/src/decoder/stateful.rs and lib/src/decoder/stateful/capture_thread.rs: the commands of the decoder
-- that the thread answers at once, while the kernel does what it is asked.
use v4l2r.Base.{
  ℕ, zero, suc, ◌≤◌, ◌<◌, ◌≡◌, refl, ap, false, List, [], ◌∷◌, map, some, ok, done, arith, length,
  subst, get_elem?, Returns-value, Yields-value, length-map,
}
use v4l2r.Ioctl.Buffer.{UncheckedBuffer, video_max_planes}
use v4l2r.Memory.{BufferHandles, FillsPlanes}
use v4l2r.Queue.Buffers.{BufferState, free, pre_queue, dequeued, queued, BufferInfo, is_free}
use v4l2r.Queue.Allocated.{num_free_buffers, num_buffers}
use v4l2r.Queue.Allocated.Counters.{Agree, count-le}
use v4l2r.Queue.Allocated.Cancel.{held, released}
use v4l2r.Queue.Creation.{QueueBase}
use v4l2r.Queue.Provider.{HandlesProvider}
use v4l2r.Decoder.Capture.{
  CaptureThreadResponse, flush_done, DecodingQueue, CaptureQueue, awaiting_resolution, decoding,
  CaptureThread, Answers, discard_all,
}
use v4l2r.Decoder.Capture.Commands.{
  drain, flush, restart_for_flush, enqueue, enqueue_capture_buffers,
}
use v4l2r.Decoder.Capture.Commands.Enqueueing.{Fits}
use v4l2r.Decoder.Capture.Commands.Terminating.{Planes, Supplies, Enqueued, enqueue-Enqueued}
use v4l2r.Decoder.Capture.Commands.Obliging.{Obliging, sends, restarts, drain_returns}
use v4l2r.Decoder.Stateful.Answering.{
  drain_now, DrainReturns, FlushReturns, drain_response_sent, flush_response_sent,
}

module _ {V H : Type 0} (h : HandlesProvider V H) (b : BufferHandles H) (a : Answers V)
    (g : Obliging h a) (t : CaptureThread V H) where
  -- If the decoder waits for the response, the kernel does what it is asked, and dropping handles
  -- does not panic, then a drain that does not block returns after exactly one response, and
  -- `Decoder::drain` returns on it what the state of the thread asks for: `TryAgain` before the
  -- format is known, and `false` afterwards.
  pub drain-DrainReturns :
      (t' : CaptureThread V H) × (drain h b a false t ≡ done t')
      × DrainReturns t (drain_now t.capture_queue) t'
  drain-DrainReturns =
      let (t', e) = drain_returns h a g b false t in
      (t', e, Returns-value (drain_response_sent a h b t) e)

get_elem?-released :
    {H : Type 0} (infos : List (BufferInfo H)) (j : ℕ) {x : BufferInfo H}
    → get_elem? (map released infos) j ≡ some x
    → (y : BufferInfo H) × (get_elem? infos j ≡ some y) × (y.features ≡ x.features)
get_elem?-released [] j e = absurd (cc)
get_elem?-released (y ∷ infos) zero {x} e =
    let eq : released y ≡ x = cc e in (y, refl, ap (λ z. z.features) eq)
get_elem?-released (y ∷ infos) (suc j) e = get_elem?-released infos j e

-- The handles that the queue holds are for `n` planes.
pub record Holds {H : Type 0} (b : BufferHandles H) (n : ℕ) (infos : List (BufferInfo H))
    : Type 0 where
  pub held_len :
      (j : ℕ) (x : BufferInfo H) (handles : H)
      → get_elem? infos j ≡ some x
      → x.state ≡ queued handles
      → b.len handles ≡ n

module _ {V H : Type 0} (h : HandlesProvider V H) (b : BufferHandles H) (n : ℕ) (Sound : V → Type 0)
    (supplies : Supplies h b n Sound) where
  -- Dropping the handles that a queue holds keeps the provider sound.
  discard_all-Sound :
      (infos : List (BufferInfo H)) (v : V) {v' : V}
      → Holds b n infos
      → Sound v
      → discard_all h (held infos) v ≡ done v'
      → Sound v'
  unfolding discard_all held
  discard_all-Sound [] v holds sound e = subst Sound (cc) sound
  discard_all-Sound (x ∷ infos) v {v'} holds sound e =
      let rest : Holds b n infos = record {
        held_len = λ j y handles at s. holds.held_len (suc j) y handles at s;
      } in
      go x.state refl (λ v₁ sound' e'. discard_all-Sound infos v₁ rest sound' e') e
    where
      go :
          (s : BufferState H)
          → x.state ≡ s
          → ((v₁ : V) → Sound v₁ → discard_all h (held infos) v₁ ≡ done v' → Sound v')
          → discard_all h (held (record x { state = s } ∷ infos)) v ≡ done v'
          → Sound v'
      go (queued handles) s later e' =
          let (v₁, d, sound') =
            supplies.takes_back handles v (holds.held_len 0 x handles refl s) sound in
          later v₁ sound' (ground (arith, d))
      go free s later e' = later v sound e'
      go pre_queue s later e' = later v sound e'
      go dequeued s later e' = later v sound e'

-- What `flush` needs of the CAPTURE queue and the provider, if there are any.
pub data Flushable {V H : Type 0} (b : BufferHandles H) (n : ℕ) (Sound : V → Type 0) (fuel : ℕ)
    : CaptureQueue V H → Type 0 where
  no_buffers : {base : QueueBase} → Flushable b n Sound fuel (awaiting_resolution base)
  with_buffers :
      {d : DecodingQueue V H}
      → Agree d.capture_queue.buffer_info d.capture_queue.stats
      → Fits d.capture_queue
      → Planes n d.capture_queue
      → Holds b n d.capture_queue.buffer_info
      → Sound d.provider
      → num_buffers d.capture_queue < fuel
      → Flushable b n Sound fuel (decoding d)

module _ {V H : Type 0} (h : HandlesProvider V H) (b : BufferHandles H) (n : ℕ) (Sound : V → Type 0)
    (supplies : Supplies h b n Sound) (laws : FillsPlanes b) (a : Answers V) (g : Obliging h a)
    (accepts : (turn : ℕ) (u : UncheckedBuffer) → a.qbuf turn u ≡ ok tt) where
  -- The loop that queues the buffers after a flush has stopped and started the queue.
  requeues :
      (fuel : ℕ) (d d' : DecodingQueue V H)
      → d'.capture_queue.buffer_info ≡ map released d.capture_queue.buffer_info
      → Agree d'.capture_queue.buffer_info d'.capture_queue.stats
      → Fits d.capture_queue
      → Planes n d.capture_queue
      → Sound d'.provider
      → num_buffers d.capture_queue < fuel
      → Enqueued h d'.cap_buffer_waker d'.provider d'.capture_queue
          (enqueue h b fuel a.qbuf d'.base d'.cap_buffer_waker 0 d'.provider d'.capture_queue)
  unfolding num_buffers num_free_buffers
  requeues fuel d d' same agree f s sound lt =
      enqueue-Enqueued h b n Sound supplies laws a.qbuf accepts d'.base d'.cap_buffer_waker fuel 0
        d'.provider d'.capture_queue
        (omega (
          arith,
          agree.frees,
          count-le is_free d'.capture_queue.buffer_info,
          ap length same,
          length-map released d.capture_queue.buffer_info,
        ))
        agree
        (record {
          index_at = λ j x e.
              let (y, there, eq) = was j x e in subst (λ z. z.index ≡ j) eq (f.index_at j y there);
          some_planes = λ j x e.
              let (y, there, eq) = was j x e in
              subst (λ z. 1 ≤ length z.planes) eq (f.some_planes j y there);
          few_planes = λ j x e.
              let (y, there, eq) = was j x e in
              subst (λ z. length z.planes ≤ video_max_planes) eq (f.few_planes j y there);
        })
        (record {
          same_len = λ j x e.
              let (y, there, eq) = was j x e in
              subst (λ z. length z.planes ≡ n) eq (s.same_len j y there);
        })
        sound
    where
      was :
          (j : ℕ) (x : BufferInfo H)
          → get_elem? d'.capture_queue.buffer_info j ≡ some x
          → (y : BufferInfo H) × (get_elem? d.capture_queue.buffer_info j ≡ some y)
            × (y.features ≡ x.features)
      was j x e =
          get_elem?-released d.capture_queue.buffer_info j
            (subst (λ l. get_elem? l j ≡ some x) same e)

  flush_returns :
      (fuel : ℕ) (t : CaptureThread V H) (c : CaptureQueue V H)
      → c ≡ t.capture_queue
      → Flushable b n Sound fuel c
      → (t' : CaptureThread V H) × (flush h b fuel a t ≡ some (done t'))
  unfolding flush restart_for_flush enqueue_capture_buffers
  flush_returns fuel t (awaiting_resolution base) e no_buffers =
      let sent : List CaptureThreadResponse = flush_done (ok tt) ∷ t.responses in
      (record t { responses = sent }, ground (arith, e, sends h a g (flush_done (ok tt)) t))
  flush_returns fuel t (decoding d) e (with_buffers agree f s holds sound lt) =
      let (d', again, same, agree', dropped) = restarts h a g d agree in
      let sound' =
        discard_all-Sound h b n Sound supplies d.capture_queue.buffer_info d.provider holds sound
          dropped in
      let d'' : DecodingQueue V H = record d' { blocking_drain_in_progress = false } in
      let t₁ : CaptureThread V H = record t { capture_queue = decoding d'' } in
      let loop = requeues fuel d d'' same agree' f s sound' lt in
      let sent : List CaptureThreadResponse = flush_done (ok tt) ∷ t.responses in
      (
        record t {
          capture_queue =
              decoding
                (record d'' { provider = loop.provider_left; capture_queue = loop.queue_left });
          responses = sent;
        },
        ground (arith, e, again, sends h a g (flush_done (ok tt)) t₁, loop.result),
      )

  -- Take a provider that lets the queue choose the buffers and gives handles of `n` planes, of which
  -- it takes dropped ones back without a panic. If the decoder waits for the response, the kernel
  -- does what it is asked and accepts each buffer, and the CAPTURE queue, if there is one, has
  -- counters that agree, holds handles of `n` planes, and has buffers that carry their positions
  -- with `n` planes, a valid number, and are fewer than the fuel, then a flush returns after
  -- exactly one response, and `Decoder::flush` succeeds on it if it can start the OUTPUT queue.
  pub flush-FlushReturns :
      (fuel : ℕ) (t : CaptureThread V H)
      → Flushable b n Sound fuel t.capture_queue
      → (t' : CaptureThread V H) × (flush h b fuel a t ≡ some (done t')) × FlushReturns t t'
  flush-FlushReturns fuel t f =
      let (t', e) = flush_returns fuel t t.capture_queue refl f in
      (t', e, Yields-value (flush_response_sent a h b t fuel) e)
