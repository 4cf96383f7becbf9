-- ===== src/Decoder/Capture/Running/Linked.antt =====
-- lib/src/decoder/stateful/capture_thread.rs: each operation of the thread and what it polls for.
use v4l2r.Base.{
  ℕ, ◌≡◌, refl, sym, ap, ◌∙◌, Bool, true, false, List, ◌∷◌, Option, Result, ok, err, Run, done,
  panicked, bind, unwrap_ok, Returns, returns, panics, Returns-bind, Returns-any, Succeeds,
  succeeds, Yields, yields, Yields-chain, Yields-any, runs_on,
}
use v4l2r.Memory.{BufferHandles}
use v4l2r.Ioctl.Events.Pending.{is_drc_event_pending}
use v4l2r.Queue.Creation.{QueueBase}
use v4l2r.Queue.Provider.{HandlesProvider}
use v4l2r.Decoder.Capture.{
  CaptureThreadResponse, DecoderEvent, DecodingQueue, CaptureQueue, awaiting_resolution, decoding,
  CaptureThread, Answers, send_response, update_capture_format, update_if_drc, process_v4l2_event,
  restart, end_stream, UpdateCaptureError, drain_done, end_of_stream,
}
use v4l2r.Decoder.Capture.Updating.{Updated, update_capture_format-Updated}
use v4l2r.Decoder.Capture.Listening.{Mode, waits, decodes, Linked}
use v4l2r.Decoder.Capture.Commands.{
  enqueue, enqueue_capture_buffers, drain, restart_for_flush, flush,
}

abbrev pub is_decoding : {V H : Type 0} → CaptureQueue V H → Bool
is_decoding (awaiting_resolution base) = false
is_decoding (decoding d) = true

-- The case of a queue, in a `match` on it.
pub on_queue {κ ν} :
    {V H : Type 0} {B : Type κ} (P : B → Type ν) (c : CaptureQueue V H) {f : QueueBase → B}
    {g : DecodingQueue V H → B}
    → ((base : QueueBase) → c ≡ awaiting_resolution base → P (f base))
    → ((d : DecodingQueue V H) → c ≡ decoding d → P (g d))
    → P (elim c [ awaiting_resolution base ↦ f base | decoding d ↦ g d ])
on_queue P (awaiting_resolution base) waiting going = waiting base refl
on_queue P (decoding d) waiting going = going d refl

-- The thread goes on in the same state, and what it polls for still fits that.
pub record Stays {V H : Type 0} (t t' : CaptureThread V H) : Type 0 where
  pub linked : Linked t'
  pub same_state : is_decoding t'.capture_queue ≡ is_decoding t.capture_queue

module _ {V H : Type 0} where
  unchanged_thread : {t : CaptureThread V H} → Linked t → Stays t t
  unchanged_thread l = record { linked = l; same_state = refl }

  -- Nothing that the state and the poller depend on has changed.
  pub requeued :
      (t : CaptureThread V H) (d : DecodingQueue V H)
      → t.capture_queue ≡ decoding d
      → Linked t
      → (d' : DecodingQueue V H) (rs : List CaptureThreadResponse) (es : List (DecoderEvent H))
      → Stays t
          (record { capture_queue = decoding d'; poller = t.poller; responses = rs; emitted = es })
  requeued t d e l d' rs es = record {
    linked = record { listens = l.listens; mode = go t.capture_queue e l.mode };
    same_state = ap is_decoding (sym e);
  }
    where
      go :
          (c : CaptureQueue V H)
          → c ≡ decoding d
          → Mode c t.poller
          → Mode {H = H} (decoding d') t.poller
      go (awaiting_resolution base) e' (waits _ _ _) = absurd (cc)
      go (decoding d'') e' (decodes n w) = decodes n w

  answered :
      (a : Answers V) (r : CaptureThreadResponse) (t t' : CaptureThread V H)
      → Stays t t'
      → Returns (Stays t) (send_response a r t')
  unfolding send_response
  answered a r t t' s = go a.receiver_alive
    where
      go :
          (b : Bool)
          → Returns (Stays t) (elim b [
            | true ↦ done (record t' { responses = r ∷ t'.responses })
            | false ↦ panicked
          ])
      go true = returns (record {
        linked = record { listens = s.linked.listens; mode = s.linked.mode };
        same_state = s.same_state;
      })
      go false = panics

  module _ (h : HandlesProvider V H) where
    pub restart_for_flush-Stays :
        (b : BufferHandles H) (a : Answers V) (t : CaptureThread V H)
        → Linked t
        → Returns (Stays t) (restart_for_flush h b a t)
    unfolding restart_for_flush
    restart_for_flush-Stays b a t l =
        on_queue (Returns (Stays t)) t.capture_queue (λ base e. returns (unchanged_thread l))
          (λ d e. Returns-any (restart h a d) (λ d'. returns (requeued t d e l _ _ _)))

    pub drain-Stays :
        (b : BufferHandles H) (a : Answers V) (blocking : Bool) (t : CaptureThread V H)
        → Linked t
        → Returns (Stays t) (drain h b a blocking t)
    unfolding drain
    drain-Stays b a blocking t l =
        on_queue (Returns (Stays t)) t.capture_queue
          (λ base e. answered a _ t t (unchanged_thread l))
          (λ d e. Returns-any (unwrap_ok a.decoder_cmd) (λ _. go d e blocking))
      where
        go :
            (d : DecodingQueue V H)
            → t.capture_queue ≡ decoding d
            → (b : Bool)
            → Returns (Stays t) (elim b [
              | true ↦ done (record t {
                capture_queue = decoding (record d { blocking_drain_in_progress = true });
              })
              | false ↦ send_response a (drain_done (ok false)) t
            ])
        go d e true = returns (requeued t d e l _ _ _)
        go d e false = answered a _ t t (unchanged_thread l)

    pub enqueue_capture_buffers-Stays :
        (b : BufferHandles H) (fuel : ℕ) (a : Answers V) (t : CaptureThread V H)
        → Linked t
        → Yields (Stays t) (enqueue_capture_buffers h b fuel a t)
    unfolding enqueue_capture_buffers
    enqueue_capture_buffers-Stays b fuel a t l =
        on_queue (Yields (Stays t)) t.capture_queue
          (λ base e. yields (returns (unchanged_thread l)))
          (λ d e.
            Yields-any
              (enqueue h b fuel a.qbuf d.base d.cap_buffer_waker 0 d.provider d.capture_queue)
              (λ r. yields (returns (requeued t d e l _ _ _))))

    pub then_Stays :
        {t t' : CaptureThread V H} {r : Option (Run (CaptureThread V H))}
        → Stays t t'
        → Yields (Stays t') r
        → Yields (Stays t) r
    then_Stays s (yields (returns s')) =
        yields (returns (record { linked = s'.linked; same_state = s'.same_state ∙ s.same_state }))
    then_Stays s (yields panics) = yields panics
    then_Stays s runs_on = runs_on

    pub flush-Stays :
        (b : BufferHandles H) (fuel : ℕ) (a : Answers V) (t : CaptureThread V H)
        → Linked t
        → Yields (Stays t) (flush h b fuel a t)
    unfolding flush
    flush-Stays b fuel a t l =
        Yields-chain
          (yields (Returns-bind (restart_for_flush-Stays b a t l) (λ t' s. answered a _ t t' s)))
          (λ t' s. then_Stays s (enqueue_capture_buffers-Stays b fuel a t' s.linked))

    pub end_stream-Stays :
        (a : Answers V) (t : CaptureThread V H) (d : DecodingQueue V H)
        → t.capture_queue ≡ decoding d
        → Linked t
        → Returns (Stays t) (end_stream h a t d)
    unfolding end_stream
    end_stream-Stays a t d e l =
        Returns-any (restart h a d) (λ d'. go d' d.blocking_drain_in_progress)
      where
        go :
            (d' : DecodingQueue V H) (b : Bool)
            → let ended : CaptureThread V H = record t {
              capture_queue = decoding (record d' { blocking_drain_in_progress = false });
              emitted = end_of_stream ∷ t.emitted;
            } in
              Returns (Stays t) (elim b [
                | true ↦ send_response a (drain_done (ok true)) ended
                | false ↦ done ended
              ])
        go d' true = answered a _ t _ (requeued t d e l _ _ _)
        go d' false = returns (requeued t d e l _ _ _)

  -- A change of format, or something else: what it polls for fits either way.
  pub update_if_drc-Linked :
      (a : Answers V) (t : CaptureThread V H) {otherwise : Run (CaptureThread V H)}
      → Linked t
      → Returns Linked otherwise
      → Returns Linked (update_if_drc a t otherwise)
  unfolding update_if_drc
  update_if_drc-Linked a t {otherwise} l o =
      Returns-any (is_drc_event_pending a.events) (λ r. Returns-any (unwrap_ok r.1) go)
    where
      updated :
          (r : Result UpdateCaptureError (CaptureThread V H))
          → Succeeds (Updated a t) r
          → Returns Linked (unwrap_ok r)
      updated (err e) s = panics
      updated (ok t') (succeeds u) = returns u.linked

      go :
          (drc : Bool)
          → Returns Linked
              (elim drc [ true ↦ bind (update_capture_format a t) unwrap_ok | false ↦ otherwise ])
      go true = Returns-bind (update_capture_format-Updated a t l) updated
      go false = o

  pub process_v4l2_event-Linked :
      (a : Answers V) (t : CaptureThread V H) → Linked t → Returns Linked (process_v4l2_event a t)
  unfolding process_v4l2_event
  process_v4l2_event-Linked a t l =
      on_queue (Returns Linked) t.capture_queue (λ base e. update_if_drc-Linked a t l (returns l))
        (λ d e. panics)
