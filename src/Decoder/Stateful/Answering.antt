-- ===== src/Decoder/Stateful/Answering.antt =====
-- lib/src/decoder/stateful.rs and lib/src/decoder/stateful/capture_thread.rs: a command of the decoder
-- and the response of the capture thread to it.
use v4l2r.Base.{
  ℕ, ◌≡◌, refl, ap, Bool, true, false, List, [], ◌∷◌, Option, none, some, Result, ok, err, done,
  panicked, bind, unwrap_ok, Returns, returns, panics, Returns-bind, Returns-any, Yields, yields,
  Yields-chain, Yields-any,
}
use v4l2r.Memory.{BufferHandles}
use v4l2r.Queue.Provider.{HandlesProvider}
use v4l2r.Decoder.Capture.{
  DrainError, try_again, CaptureThreadResponse, drain_done, flush_done, CaptureQueue,
  awaiting_resolution, decoding, CaptureThread, Answers, send_response, restart,
}
use v4l2r.Decoder.Capture.Commands.{
  drain, flush, restart_for_flush, enqueue, enqueue_capture_buffers,
}
use v4l2r.Decoder.Capture.Running.Linked.{on_queue}
use v4l2r.Decoder.Stateful.Decoding.{drain_response, flush_response}

-- The next response that the decoder receives after those in `before`, if the thread has sent exactly one
-- more; the last one is first in the list.
abbrev pub next_response : List CaptureThreadResponse → Option CaptureThreadResponse
next_response [] = none
next_response (r ∷ rs) = some r

-- What a drain that does not block is to return, for a thread in the given state.
unfoldable pub drain_now : {V H : Type 0} → CaptureQueue V H → Result DrainError Bool
drain_now (awaiting_resolution base) = err try_again
drain_now (decoding d) = ok false

module _ {V H : Type 0} where
  -- The thread has sent one response more than `t` had, and it makes the drain return `expected`.
  pub record DrainReturns (t : CaptureThread V H) (expected : Result DrainError Bool)
      (t' : CaptureThread V H) : Type 0 where
    pub response : CaptureThreadResponse
    pub one_more : t'.responses ≡ response ∷ t.responses
    pub result : drain_response (next_response t'.responses) ≡ expected

  -- The thread has sent one response more than `t` had, and it makes the flush succeed.
  pub record FlushReturns (t t' : CaptureThread V H) : Type 0 where
    pub response : CaptureThreadResponse
    pub one_more : t'.responses ≡ response ∷ t.responses
    pub result : flush_response (next_response t'.responses) (ok tt) ≡ ok tt

  module _ (a : Answers V) where
    answered_drain :
        (t t' : CaptureThread V H) (r : Result DrainError Bool)
        → t'.responses ≡ t.responses
        → Returns (DrainReturns t r) (send_response a (drain_done r) t')
    unfolding send_response drain_response
    answered_drain t t' r e = go a.receiver_alive
      where
        go :
            (b : Bool)
            → Returns (DrainReturns t r) (elim b [
              | true ↦ done (record t' { responses = drain_done r ∷ t'.responses })
              | false ↦ panicked
            ])
        go true = returns (record {
          response = drain_done r;
          one_more = ap (λ l. drain_done r ∷ l) e;
          result = refl;
        })
        go false = panics

    answered_flush :
        (t t' : CaptureThread V H)
        → t'.responses ≡ t.responses
        → Returns (FlushReturns t) (send_response a (flush_done (ok tt)) t')
    unfolding send_response flush_response
    answered_flush t t' e = go a.receiver_alive
      where
        go :
            (b : Bool)
            → Returns (FlushReturns t) (elim b [
              | true ↦ done (record t' { responses = flush_done (ok tt) ∷ t'.responses })
              | false ↦ panicked
            ])
        go true = returns (record {
          response = flush_done (ok tt);
          one_more = ap (λ l. flush_done (ok tt) ∷ l) e;
          result = refl;
        })
        go false = panics

    module _ (h : HandlesProvider V H) (b : BufferHandles H) (t : CaptureThread V H) where
      pub drain_response_sent :
          Returns (DrainReturns t (drain_now t.capture_queue)) (drain h b a false t)
      unfolding drain drain_now
      drain_response_sent = go t.capture_queue refl
        where
          go :
              (c : CaptureQueue V H)
              → c ≡ t.capture_queue
              → Returns (DrainReturns t (drain_now c)) (elim c [
                | awaiting_resolution _ ↦ send_response a (drain_done (err try_again)) t
                | decoding d ↦
                    bind (unwrap_ok a.decoder_cmd) λ _. send_response a (drain_done (ok false)) t
              ])
          go (awaiting_resolution base) e = answered_drain t t (err try_again) refl
          go (decoding d) e =
              Returns-any (unwrap_ok a.decoder_cmd) (λ _. answered_drain t t (ok false) refl)

      SameResponses : CaptureThread V H → Type 0
      SameResponses t' = t'.responses ≡ t.responses

      restarted : Returns SameResponses (restart_for_flush h b a t)
      unfolding restart_for_flush SameResponses
      restarted =
          on_queue (Returns SameResponses) t.capture_queue (λ base e. returns refl)
            (λ d e. Returns-any (restart h a d) (λ d'. returns refl))

      enqueued :
          (fuel : ℕ) (t' : CaptureThread V H)
          → FlushReturns t t'
          → Yields (FlushReturns t) (enqueue_capture_buffers h b fuel a t')
      unfolding enqueue_capture_buffers
      enqueued fuel t' f =
          on_queue (Yields (FlushReturns t)) t'.capture_queue (λ base e. yields (returns f))
            (λ d e.
              Yields-any
                (enqueue h b fuel a.qbuf d.base d.cap_buffer_waker 0 d.provider d.capture_queue)
                (λ r. yields (
                  returns
                    (record { response = f.response; one_more = f.one_more; result = f.result }))))

      pub flush_response_sent : (fuel : ℕ) → Yields (FlushReturns t) (flush h b fuel a t)
      unfolding flush SameResponses
      flush_response_sent fuel =
          Yields-chain (yields (Returns-bind restarted (λ t' e. answered_flush t t' e)))
            (λ t' f. enqueued fuel t' f)
