-- ===== src/Decoder/Capture/Commands/Draining.antt =====
-- lib/src/decoder/stateful/capture_thread.rs: the responses to the commands.
use v4l2r.Base.{
  ℕ, suc, ◌+◌, ◌≡◌, refl, sym, ap, ◌∙◌, Bool, true, false, List, ◌∷◌, Result, ok, err, Run, done,
  panicked, unwrap_ok, arith, length, subst, Returns, returns, panics, Returns-bind, Returns-any,
  Yields, yields, Yields-chain, Yields-any,
}
use v4l2r.Memory.{BufferHandles}
use v4l2r.Ioctl.Buffer.{V4l2Buffer, is_last}
use v4l2r.Ioctl.Events.{RawEvent}
use v4l2r.Ioctl.Events.Pending.{is_drc_event_pending}
use v4l2r.Queue.Allocated.{Allocated}
use v4l2r.Queue.Dequeueing.{DqBufError, DqBuffer, new_dqbuffer}
use v4l2r.Queue.Dequeueing.Returned.{Dequeues, returned, inconsistent, try_dequeue-Dequeues}
use v4l2r.Queue.Provider.{HandlesProvider}
use v4l2r.Decoder.Capture.{
  Errno, CaptureThreadResponse, drain_done, flush_done, try_again, end_of_stream, DecodingQueue,
  CaptureQueue, awaiting_resolution, decoding, CaptureThread, Answers, send_response, update_if_drc,
  restart, end_stream, dequeue_capture_buffer,
}
use v4l2r.Decoder.Capture.Commands.{
  enqueue, enqueue_capture_buffers, drain, restart_for_flush, flush,
}
use v4l2r.Decoder.Capture.Running.Linked.{on_queue}

-- Whether a response to a blocking drain is still due.
abbrev pub owed : {V H : Type 0} → CaptureQueue V H → ℕ
owed (awaiting_resolution base) = 0
owed (decoding d) = elim d.blocking_drain_in_progress [ true ↦ 1 | false ↦ 0 ]

-- The responses that were sent, and the one that is still due.
unfoldable pub promised : {V H : Type 0} → CaptureThread V H → ℕ
promised t = length t.responses + owed t.capture_queue

module _ {V H : Type 0} where
  -- `n` responses are sent or due.
  pub record Promises (n : ℕ) (t : CaptureThread V H) : Type 0 where
    pub total : promised t ≡ n

  -- `n` responses have been sent, and none is due.
  pub record Settled (n : ℕ) (t : CaptureThread V H) : Type 0 where
    pub sent : length t.responses ≡ n
    pub none_due : owed t.capture_queue ≡ 0

  sent_one :
      (a : Answers V) (r : CaptureThreadResponse) (t : CaptureThread V H) (n : ℕ)
      → Settled n t
      → Returns (Settled (suc n)) (send_response a r t)
  unfolding send_response
  sent_one a r t n s = go a.receiver_alive
    where
      go :
          (b : Bool)
          → Returns
              (Settled (suc n))
              (elim b [ true ↦ done (record t { responses = r ∷ t.responses }) | false ↦ panicked ])
      go true = returns (record { sent = ap suc s.sent; none_due = s.none_due })
      go false = panics

  pub Settled-Promises :
      {n : ℕ} {r : Run (CaptureThread V H)} → Returns (Settled n) r → Returns (Promises n) r
  unfolding promised
  Settled-Promises (returns s) = returns (record { total = omega (arith, s.sent, s.none_due) })
  Settled-Promises panics = panics

  module _ (h : HandlesProvider V H) (b : BufferHandles H) (a : Answers V) (t : CaptureThread V H)
      (n : ℕ) (s : Settled n t) where
    -- If no response is due, `drain` sends one response or, if it is to block and can, is due one.
    pub drain-Promises : (blocking : Bool) → Returns (Promises (suc n)) (drain h b a blocking t)
    unfolding drain promised
    drain-Promises blocking =
        on_queue (Returns (Promises (suc n))) t.capture_queue
          (λ base e. Settled-Promises (sent_one a (drain_done (err try_again)) t n s))
          (λ d e. Returns-any (unwrap_ok a.decoder_cmd) (λ _. go d blocking))
      where
        go :
            (d : DecodingQueue V H) (x : Bool)
            → Returns (Promises (suc n)) (elim x [
              | true ↦ done (record t {
                capture_queue = decoding (record d { blocking_drain_in_progress = true });
              })
              | false ↦ send_response a (drain_done (ok false)) t
            ])
        go d true = returns (record { total = omega (arith, s.sent) })
        go d false = Settled-Promises (sent_one a (drain_done (ok false)) t n s)

    restart_for_flush-Settled : Returns (Settled n) (restart_for_flush h b a t)
    unfolding restart_for_flush
    restart_for_flush-Settled =
        on_queue (Returns (Settled n)) t.capture_queue (λ base e. returns s)
          (λ d e.
            Returns-any (restart h a d) (λ d'. returns (record { sent = s.sent; none_due = refl })))

  enqueue_capture_buffers-Settled :
      (h : HandlesProvider V H) (b : BufferHandles H) (fuel : ℕ) (a : Answers V)
      (t : CaptureThread V H) (n : ℕ)
      → Settled n t
      → Yields (Settled n) (enqueue_capture_buffers h b fuel a t)
  unfolding enqueue_capture_buffers
  enqueue_capture_buffers-Settled h b fuel a t n s =
      on_queue (Yields (Settled n)) t.capture_queue (λ base e. yields (returns s))
        (λ d e.
          Yields-any
            (enqueue h b fuel a.qbuf d.base d.cap_buffer_waker 0 d.provider d.capture_queue)
            (λ r.
              yields (returns (record { sent = s.sent; none_due = ap owed (sym e) ∙ s.none_due }))))

  -- If no response is due, `flush` sends exactly one, and none is due afterwards.
  pub flush-Settled :
      (h : HandlesProvider V H) (b : BufferHandles H) (fuel : ℕ) (a : Answers V)
      (t : CaptureThread V H) (n : ℕ)
      → Settled n t
      → Yields (Settled (suc n)) (flush h b fuel a t)
  unfolding flush
  flush-Settled h b fuel a t n s =
      Yields-chain
        (yields (
          Returns-bind (restart_for_flush-Settled h b a t n s)
            (λ t' s'. sent_one a (flush_done (ok tt)) t' n s')))
        (λ t' s'. enqueue_capture_buffers-Settled h b fuel a t' (suc n) s')

  module _ (h : HandlesProvider V H) (a : Answers V) (n : ℕ) where
    -- At the end of the stream the response that was due is sent, and none is due afterwards.
    end_stream-Settled :
        (t : CaptureThread V H) (d : DecodingQueue V H)
        → t.capture_queue ≡ decoding d
        → Promises n t
        → Returns (Settled n) (end_stream h a t d)
    unfolding end_stream promised
    end_stream-Settled t d e p =
        Returns-any (restart h a d) (λ d'. go d' d.blocking_drain_in_progress (ap owed (sym e)))
      where
        go :
            (d' : DecodingQueue V H) (x : Bool)
            → owed (decoding (record d { blocking_drain_in_progress = x })) ≡ owed t.capture_queue
            → let ended : CaptureThread V H = record t {
              capture_queue = decoding (record d' { blocking_drain_in_progress = false });
              emitted = end_of_stream ∷ t.emitted;
            } in
              Returns (Settled n) (elim x [
                | true ↦ send_response a (drain_done (ok true)) ended
                | false ↦ done ended
              ])
        go d' true o =
            let one_more : suc (length t.responses) ≡ n = omega (arith, p.total, o) in
            let ended : CaptureThread V H = record t {
              capture_queue = decoding (record d' { blocking_drain_in_progress = false });
              emitted = end_of_stream ∷ t.emitted;
            } in
            subst (λ k. Returns (Settled k) (send_response a (drain_done (ok true)) ended)) one_more
              (sent_one a (drain_done (ok true)) ended (length t.responses)
                (record { sent = refl; none_due = refl }))
        go d' false o = returns (record { sent = omega (arith, p.total, o); none_due = refl })

    -- What `dequeue_capture_buffer` does with a frame, if no change of format is pending.
    frame_Promises :
        {rest : List (Result Errno RawEvent)} (t : CaptureThread V H) (d : DecodingQueue V H)
        → is_drc_event_pending a.events ≡ done (rest, ok false)
        → t.capture_queue ≡ decoding d
        → Promises n t
        → (last : Bool)
        → Returns
            (λ t'. Promises n t' × (last ≡ true → Settled n t'))
            (elim last [ true ↦ update_if_drc a t (end_stream h a t d) | false ↦ done t ])
    unfolding update_if_drc promised
    frame_Promises t d no_drc e p false = returns (p, λ x. absurd (cc))
    frame_Promises t d no_drc e p true = rw no_drc (both (end_stream-Settled t d e p))
      where
        both :
            {r : Run (CaptureThread V H)}
            → Returns (Settled n) r
            → Returns (λ t'. Promises n t' × (true ≡ true → Settled n t')) r
        both (returns s) = returns (record { total = omega (arith, s.sent, s.none_due) }, λ x. s)
        both panics = panics

    -- The frame is the buffer that the kernel returned.
    record Kept (buf : V4l2Buffer) (r : Allocated H × Result DqBufError (DqBuffer H)) : Type 0 where
      dq : DqBuffer H
      is_ok : r.1 ≡ ok dq
      contents : dq.contents ≡ buf

    kept :
        (q : Allocated H) (buf : V4l2Buffer)
        {r : Run (Allocated H × Result DqBufError (DqBuffer H))}
        → Dequeues q buf r
        → Returns (Kept buf) r
    unfolding new_dqbuffer
    kept q buf (returned q' b handles s c) =
        returns (record { dq = new_dqbuffer q' _ handles buf; is_ok = refl; contents = refl })
    kept q buf (inconsistent i) = panics

    -- If the kernel has no change of format pending and returns the buffer `buf`, then processing it
    -- keeps the number of responses that are sent or due. If `buf` is the LAST one, the response that
    -- was due has been sent, so that none is due any more.
    pub dequeue_capture_buffer-Promises :
        {rest : List (Result Errno RawEvent)} (buf : V4l2Buffer) (t : CaptureThread V H)
        → is_drc_event_pending a.events ≡ done (rest, ok false)
        → a.dqbuf ≡ ok buf
        → Promises n t
        → Returns
            (λ t'. Promises n t' × (is_last buf ≡ true → Settled n t'))
            (dequeue_capture_buffer h a t)
    unfolding dequeue_capture_buffer promised
    dequeue_capture_buffer-Promises buf t no_drc returned_buf p =
        on_queue (Returns Q) t.capture_queue (λ base e. panics)
          (λ d e. rw returned_buf (
            Returns-bind (kept d.capture_queue buf (try_dequeue-Dequeues d.capture_queue buf))
              (λ r k.
                rw (k.is_ok, k.contents)
                  (frame_Promises _ _ no_drc refl
                    (record { total = omega (arith, p.total, ap owed e) }) (is_last buf)))))
      where
        Q : CaptureThread V H → Type 0
        Q t' = Promises n t' × (is_last buf ≡ true → Settled n t')
