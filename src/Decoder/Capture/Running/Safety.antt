-- ===== src/Decoder/Capture/Running/Safety.antt =====
-- lib/src/decoder/stateful/capture_thread.rs: whole runs of the thread.
use v4l2r.Base.{
  ℕ, ◌≡◌, refl, ◌∙◌, Bool, true, false, List, [], ◌∷◌, Option, some, Run, done, ◌==◌, Returns,
  returns, panics, Returns-bind, Returns-any, on_result, Yields, yields, Yields-chain, runs_on,
  Bool-cases, inl, inr,
}
use v4l2r.Memory.{BufferHandles}
use v4l2r.Ioctl.Buffer.{is_last}
use v4l2r.Poller.{PollEvent, device, waker, v4l2_event, capture_ready, output_ready}
use v4l2r.Queue.Dequeueing.{try_dequeue}
use v4l2r.Queue.Provider.{HandlesProvider}
use v4l2r.Decoder.Capture.{
  capture_ready_id, command_waiting_id, DecodingQueue, decoding, CaptureThread, Answers,
  update_if_drc, end_stream, dequeue_capture_buffer,
}
use v4l2r.Decoder.Capture.Listening.{Linked}
use v4l2r.Decoder.Capture.Commands.{
  process_commands, DecoderCommand, drain_command, flush_command, stop_command,
}
use v4l2r.Decoder.Capture.Running.{Happening, Turn, handle_event, handle_events, main_loop, run}
use v4l2r.Decoder.Capture.Running.Ending.{Waiting, adjust_polling-Stays, finish-Waiting}
use v4l2r.Decoder.Capture.Running.Linked.{
  on_queue, Stays, requeued, drain-Stays, flush-Stays, enqueue_capture_buffers-Stays,
  end_stream-Stays, update_if_drc-Linked, process_v4l2_event-Linked,
}

module _ {V H : Type 0} where
  later :
      {t t' : CaptureThread V H} {r : Option (Run (CaptureThread V H × Bool))}
      → Stays t t'
      → Yields (λ r. Stays t' r.0) r
      → Yields (λ r. Stays t r.0) r
  later s (yields (returns s')) =
      yields (returns (record { linked = s'.linked; same_state = s'.same_state ∙ s.same_state }))
  later s (yields panics) = yields panics
  later s runs_on = runs_on

  kept_by_commands :
      {t : CaptureThread V H} {r : Option (Run (CaptureThread V H × Bool))}
      → Yields (λ r. Stays t r.0) r
      → Yields (λ r. Linked r.0) r
  kept_by_commands (yields (returns s)) = yields (returns s.linked)
  kept_by_commands (yields panics) = yields panics
  kept_by_commands runs_on = runs_on

  kept_at_end :
      {t : CaptureThread V H} {r : Run (CaptureThread V H)} → Returns (Stays t) r → Returns Linked r
  kept_at_end (returns s) = returns s.linked
  kept_at_end panics = panics

  stopping :
      (b : Bool) {t : CaptureThread V H} {r : Option (Run (CaptureThread V H × Bool))}
      → Linked t
      → Yields (λ r. Linked r.0) r
      → Yields (λ r. Linked r.0) (elim b [ true ↦ some (done (t, true)) | false ↦ r ])
  stopping true l y = yields (returns l)
  stopping false l y = y

  leaving :
      (b : Bool) {t : CaptureThread V H} {r : Option (Run (CaptureThread V H))}
      → Linked t
      → Yields Linked r
      → Yields Linked (elim b [ true ↦ some (done t) | false ↦ r ])
  leaving true l y = yields (returns l)
  leaving false l y = y

module _ {V H : Type 0} (h : HandlesProvider V H) (b : BufferHandles H) where
  frame_Linked :
      (a : Answers V) (t : CaptureThread V H) (d : DecodingQueue V H)
      → t.capture_queue ≡ decoding d
      → Linked t
      → (last : Bool)
      → Returns Linked
          (elim last [ true ↦ update_if_drc a t (end_stream h a t d) | false ↦ done t ])
  frame_Linked a t d e l false = returns l
  frame_Linked a t d e l true =
      update_if_drc-Linked a t l (kept_at_end (end_stream-Stays h a t d e l))

  dequeue_capture_buffer-Linked :
      (a : Answers V) (t : CaptureThread V H)
      → Linked t
      → Returns Linked (dequeue_capture_buffer h a t)
  unfolding dequeue_capture_buffer
  dequeue_capture_buffer-Linked a t l =
      on_queue (Returns Linked) t.capture_queue (λ base e. panics)
        (λ d e. Returns-any (try_dequeue a.dqbuf d.capture_queue) (λ r.
          on_result (Returns Linked) r.1 (λ x. returns ((requeued t d e l _ _ _).linked))
            (λ dq.
              frame_Linked a _ _ refl ((requeued t d e l _ _ _).linked) (is_last dq.contents))))

  process_commands-Stays :
      (fuel : ℕ) (commands : List (DecoderCommand × Answers V)) (t : CaptureThread V H)
      → Linked t
      → Yields (λ r. Stays t r.0) (process_commands h b fuel commands t)
  unfolding process_commands
  process_commands-Stays fuel [] t l = yields (returns (record { linked = l; same_state = refl }))
  process_commands-Stays fuel ((drain_command blocking, a) ∷ rest) t l =
      Yields-chain (yields (drain-Stays h b a blocking t l))
        (λ t' s. later s (process_commands-Stays fuel rest t' s.linked))
  process_commands-Stays fuel ((flush_command, a) ∷ rest) t l =
      Yields-chain (flush-Stays h b fuel a t l)
        (λ t' s. later s (process_commands-Stays fuel rest t' s.linked))
  process_commands-Stays fuel ((stop_command, a) ∷ rest) t l =
      yields (returns (record { linked = l; same_state = refl }))

  module _ (fuel : ℕ) where
    -- Whatever is answered, an event leaves a thread that polls for what fits its state.
    pub handle_event-Linked :
        (e : Happening V) (t : CaptureThread V H)
        → Linked t
        → Yields (λ r. Linked r.0) (handle_event h b fuel e t)
    unfolding handle_event
    handle_event-Linked e t l = go e.event
      where
        go :
            (event : PollEvent)
            → Yields (λ r. Linked r.0) (handle_event h b fuel (record e { event = event }) t)
        go (device v4l2_event) =
            yields (Returns-bind (process_v4l2_event-Linked e.answers t l) (λ t' l'. returns l'))
        go (device capture_ready) =
            yields
              (Returns-bind (dequeue_capture_buffer-Linked e.answers t l) (λ t' l'. returns l'))
        go (device output_ready) = yields panics
        go (waker id) = elim (Bool-cases (id == capture_ready_id)) [
          | inl x ↦ rw x (
              Yields-chain (enqueue_capture_buffers-Stays h b fuel e.answers t l)
                (λ t' s. yields (returns s.linked)))
          | inr x ↦ elim (Bool-cases (id == command_waiting_id)) [
            | inl y ↦ rw (x, y) (kept_by_commands (process_commands-Stays fuel e.commands t l))
            | inr y ↦ rw (x, y) (yields panics)
          ]
        ]

    handle_events-Linked :
        (events : List (Happening V)) (t : CaptureThread V H)
        → Linked t
        → Yields (λ r. Linked r.0) (handle_events h b fuel events t)
    unfolding handle_events
    handle_events-Linked [] t l = yields (returns l)
    handle_events-Linked (e ∷ events) t l =
        Yields-chain (handle_event-Linked e t l)
          (λ r l'. stopping r.1 l' (handle_events-Linked events r.0 l'))

    main_loop-Linked :
        (turns : List (Turn V)) (t : CaptureThread V H)
        → Linked t
        → Yields Linked (main_loop h b fuel turns t)
    unfolding main_loop
    main_loop-Linked [] t l = runs_on
    main_loop-Linked (turn ∷ turns) t l =
        Yields-chain (yields (adjust_polling-Stays turn.modify t l)) (λ t' s.
          on_result (Yields Linked) turn.polled (λ e. yields (returns s.linked))
            (λ events.
              Yields-chain (handle_events-Linked events t' s.linked)
                (λ r l'. leaving r.1 l' (main_loop-Linked turns r.0 l'))))

    -- For a thread that polls for what fits its state, whatever the kernel, the client and the
    -- decoder answer: if `run` leaves its loop and does not panic, then the thread it returns
    -- awaits the format again, and polls for what fits that.
    pub run-Waiting :
        (a : Answers V) (turns : List (Turn V)) (t : CaptureThread V H)
        → Linked t
        → Yields Waiting (run h b fuel a turns t)
    unfolding run
    run-Waiting a turns t l =
        Yields-chain (main_loop-Linked turns t l) (λ t' l'. yields (finish-Waiting a t' l'))
