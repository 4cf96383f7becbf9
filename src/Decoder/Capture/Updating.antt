-- ===== src/Decoder/Capture/Updating.antt =====
-- lib/src/decoder/stateful/capture_thread.rs: what a change of the format leaves.
use v4l2r.Base.{
  ◌≡◌, refl, ◌∙◌, true, false, Result, ok, err, done, bind, ◌%◌, ◌^◌, Returns, returns,
  Returns-bind, Returns-known, on_result_known, ap, List, Succeeds, succeeds, fails, on_result,
}
use v4l2r.Poller.{
  Poller, Waker, IoError, add_waker, remove_waker, update_waker, wake_direct, set_event, v4l2_event,
  capture_ready, is_event_enabled,
}
use v4l2r.Queue.Allocated.{Allocated, CanceledBuffer}
use v4l2r.Queue.Dequeueing.{stream_off, free_buffers}
use v4l2r.Queue.Creation.{QueueBase, request_buffers_generic}
use v4l2r.Decoder.Capture.{
  Errno, capture_ready_id, DecodingQueue, CaptureQueue, awaiting_resolution, decoding,
  CaptureThread, FormatChangedReply, Answers, reset_queue, build_queue, update_capture_format,
  UpdateCaptureError, poller_events, streamoff_error, stream_on, free_buffers_error,
  remove_waker_error, add_waker_error,
}
use v4l2r.Decoder.Capture.Listening.{
  Listens, Mode, waits, decodes, Linked, set_event-Switched, removed-Listens, added-Listens,
}

module _ {V H : Type 0} (a : Answers V) where
  -- The queue before the change has been given up, up to the device and the type that it is of: there were
  -- no buffers, or it was stopped and its buffers were freed, both of which the kernel accepted.
  pub data GivenUp : CaptureQueue V H → QueueBase → Type 0 where
    none_allocated : {base : QueueBase} → GivenUp (awaiting_resolution base) base
    stopped_and_freed :
        {d : DecodingQueue V H} (q : Allocated H) (canceled freed : List (CanceledBuffer H))
        → stream_off a.streamoff d.capture_queue ≡ done (q, ok canceled)
        → free_buffers a.free_answer q ≡ done (ok freed)
        → GivenUp (decoding d) d.base

  -- A poller that is ready for a new queue, once the old one was given up.
  record ResetTo (c : CaptureQueue V H) (r : Poller × QueueBase) : Type 0 where
    still_listens : Listens r.0
    no_events : r.0.events_enabled ≡ false
    given_up : GivenUp c r.1

  disable_then_enable :
      (t : CaptureThread V H) (base : QueueBase)
      → Listens t.poller
      → (first : Poller × Result Errno (Unit {0}))
      → set_event a.modify_first v4l2_event false t.poller ≡ first
      → (second : Poller × Result Errno (Unit {0}))
      → set_event a.modify_second capture_ready true first.0 ≡ second
      → Returns
          (Succeeds {E = UpdateCaptureError} (ResetTo (awaiting_resolution base)))
          (elim first.1 [
            | err e ↦ done (err (poller_events e))
            | ok _ ↦ elim second.1 [
              | err e ↦ done (err (poller_events e))
              | ok _ ↦ done (ok (second.0, base))
            ]
          ])
  unfolding is_event_enabled
  disable_then_enable t base l (p, err e) h s h' = returns fails
  disable_then_enable t base l (p, ok _) h (p', err e) h' = returns fails
  disable_then_enable t base l (p, ok _) h (p', ok _) h' =
      let one = set_event-Switched a.modify_first v4l2_event false t.poller (λ e. cc e) l h in
      let two =
        set_event-Switched a.modify_second capture_ready true p (λ e. cc e) one.listens h' in
      returns (
        succeeds {a = (p', base)} (record {
          still_listens = two.listens;
          no_events = two.others v4l2_event (λ e. cc e) ∙ one.now;
          given_up = none_allocated;
        }))

  remove_then_free :
      (t : CaptureThread V H) (d : DecodingQueue V H)
      → Listens t.poller
      → t.poller.events_enabled ≡ false
      → (first : Poller × Result IoError Waker)
      → remove_waker capture_ready_id a.delete t.poller ≡ first
      → Returns (Succeeds {E = UpdateCaptureError} (ResetTo (decoding d))) (elim first.1 [
        | err e ↦ done (err (remove_waker_error e))
        | ok _ ↦ bind (stream_off a.streamoff d.capture_queue) λ s. elim s.1 [
          | err e ↦ done (err (streamoff_error e))
          | ok _ ↦ bind (free_buffers a.free_answer s.0) λ f. elim f [
            | err e ↦ done (err (free_buffers_error e))
            | ok _ ↦ done (ok (first.0, d.base))
          ]
        ]
      ])
  remove_then_free t d l n (p, err e) h = returns fails
  remove_then_free t d l n (p, ok w) h =
      let (l', gone, e, _) = removed-Listens a.delete t.poller l h in
      Returns-known (stream_off a.streamoff d.capture_queue) (λ s off.
        on_result_known (Returns (Succeeds (ResetTo (decoding d)))) s.1 (λ x _. returns fails)
          (λ canceled taken. Returns-known (free_buffers a.free_answer s.0) (λ f freed.
            on_result_known (Returns (Succeeds (ResetTo (decoding d)))) f (λ x _. returns fails)
              (λ back given. returns (
                succeeds {a = (p, d.base)} (record {
                  still_listens = l';
                  no_events = e ∙ n;
                  given_up =
                      stopped_and_freed s.0 canceled back (off ∙ ap (λ x. done (s.0, x)) taken)
                        (freed ∙ ap done given);
                }))))))

  reset_queue-Reset :
      (t : CaptureThread V H)
      → Listens t.poller
      → (c : CaptureQueue V H) → c ≡ t.capture_queue
      → Mode c t.poller
      → Returns (Succeeds (ResetTo t.capture_queue)) (reset_queue a t)
  unfolding reset_queue
  reset_queue-Reset t l (awaiting_resolution base) e (waits _ _ _) = rw (← e) (
      disable_then_enable t base l (set_event a.modify_first v4l2_event false t.poller) refl
        (set_event a.modify_second capture_ready true
          (set_event a.modify_first v4l2_event false t.poller).0)
        refl)
  reset_queue-Reset t l (decoding d) e (decodes n _) =
      rw (← e) (remove_then_free t d l n (remove_waker capture_ready_id a.delete t.poller) refl)

  -- What a successful `update_capture_format` leaves.
  pub record Updated (t t' : CaptureThread V H) : Type 0 where
    pub linked : Linked t'
    pub queue : DecodingQueue V H
    pub now_decoding : t'.capture_queue ≡ decoding queue
    pub given_up : GivenUp t.capture_queue queue.base
    pub reply : FormatChangedReply V
    pub replied : a.reply ≡ ok reply
    pub own_provider : queue.provider ≡ reply.provider
    pub allocated :
        request_buffers_generic H
          (a.reqbufs (reply.num_buffers % 2 ^ 32))
          a.querybuf
          queue.base.type_
          reply.mem_type
          a.name
        ≡ ok queue.capture_queue
    pub started : a.streamon ≡ ok tt
    pub forgets_drain : queue.blocking_drain_in_progress ≡ false
    pub no_response : t'.responses ≡ t.responses
    pub no_event : t'.emitted ≡ t.emitted

  add_then_stream :
      (t : CaptureThread V H) (p : Poller) (base : QueueBase) (reply : FormatChangedReply V)
      (queue : Allocated H)
      → ResetTo t.capture_queue (p, base)
      → a.reply ≡ ok reply
      → request_buffers_generic H
          (a.reqbufs (reply.num_buffers % 2 ^ 32))
          a.querybuf
          base.type_
          reply.mem_type
          a.name
        ≡ ok queue
      → (added : Poller × Result IoError Waker)
      → add_waker capture_ready_id a.eventfd a.add p ≡ added
      → Succeeds (Updated t) (elim added.1 [
        | err e ↦ err (add_waker_error e)
        | ok _ ↦ elim a.streamon [
          | err e ↦ err (stream_on e)
          | ok _ ↦ ok (record t {
            capture_queue = decoding (record {
              base = base;
              capture_queue = queue;
              provider = reply.provider;
              cap_buffer_waker = a.name;
              blocking_drain_in_progress = false;
            });
            poller = record (added.0) {
              wakers = update_waker wake_direct capture_ready_id (added.0.wakers);
            };
          })
        ]
      ])
  add_then_stream t p base reply queue r x y (p', err e) h = fails
  add_then_stream t p base reply queue r x y (p', ok w) h =
      let (l, there, e) = added-Listens a.eventfd a.add p r.still_listens h in
      on_result_known (Succeeds (Updated t)) a.streamon (λ e _. fails)
        (λ _ on. succeeds (record {
          linked = record { listens = l; mode = decodes (e ∙ r.no_events) there };
          queue = _;
          now_decoding = refl;
          given_up = r.given_up;
          reply = reply;
          replied = x;
          own_provider = refl;
          allocated = y;
          started = on;
          forgets_drain = refl;
          no_response = refl;
          no_event = refl;
        }))

  build_queue-Updated :
      (t : CaptureThread V H) (r : Poller × QueueBase)
      → ResetTo t.capture_queue r
      → Succeeds (Updated t) (build_queue a t r)
  unfolding build_queue
  build_queue-Updated t (p, base) r =
      on_result (Succeeds (Updated t)) a.selection (λ e. fails)
        (λ _.
          on_result (Succeeds (Updated t)) a.format (λ e. fails)
            (λ _.
              on_result_known (Succeeds (Updated t)) a.reply (λ e _. fails)
                (λ reply x.
                  on_result_known (Succeeds (Updated t))
                    (request_buffers_generic H (a.reqbufs (reply.num_buffers % 2 ^ 32)) a.querybuf
                      base.type_ reply.mem_type a.name)
                    (λ e _. fails)
                    (λ queue y.
                      add_then_stream t p base reply queue r x y
                        (add_waker capture_ready_id a.eventfd a.add p) refl))))

  -- For a thread that polls for what fits its state, whatever the kernel and the client answer: if
  -- `update_capture_format` succeeds then its old queue, if it had buffers, was stopped and its
  -- buffers freed. The thread is decoding, on a queue of the same type that is allocated anew,
  -- for the number of buffers and the memory type that the client replied with, and is started; the
  -- provider is the client's, and what the thread polls for fits. No drain is in progress any more, even if
  -- one was, and neither a response nor an event was sent.
  pub update_capture_format-Updated :
      (t : CaptureThread V H)
      → Linked t
      → Returns (Succeeds (Updated t)) (update_capture_format a t)
  unfolding update_capture_format
  update_capture_format-Updated t l =
      Returns-bind (reset_queue-Reset t l.listens t.capture_queue refl l.mode) updated
    where
      updated :
          (r : Result UpdateCaptureError (Poller × QueueBase))
          → Succeeds (ResetTo t.capture_queue) r
          → Returns
              (Succeeds (Updated t))
              (elim r [ err e ↦ done (err e) | ok queue ↦ done (build_queue a t queue) ])
      updated (err e) s = returns fails
      updated (ok queue) (succeeds s) = returns (build_queue-Updated t queue s)
