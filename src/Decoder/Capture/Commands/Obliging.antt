-- ===== src/Decoder/Capture/Commands/Obliging.antt =====
-- lib/src/decoder/stateful/capture_thread.rs: commands and frames while the kernel does what it is asked.
use v4l2r.Base.{
  ℕ, suc, ◌≡◌, refl, Bool, true, false, List, [], ◌∷◌, map, some, Result, ok, err, Run, done, arith,
  get_elem?, Returns-value,
}
use v4l2r.Memory.{BufferHandles}
use v4l2r.Ioctl.Buffer.{V4l2Buffer, is_last}
use v4l2r.Ioctl.Events.{RawEvent}
use v4l2r.Ioctl.Events.Pending.{is_drc_event_pending}
use v4l2r.Queue.Buffers.{BufferInfo, queued}
use v4l2r.Queue.Allocated.{Allocated, CanceledBuffer}
use v4l2r.Queue.Allocated.Counters.{Agree, updated}
use v4l2r.Queue.Allocated.Changed.{updated-Changed}
use v4l2r.Queue.Allocated.Cancel.{held, released, cancel_queued_buffers_total}
use v4l2r.Queue.Dequeueing.{DqBuffer, new_dqbuffer, stream_off, add_drop_callback, take_handles_of}
use v4l2r.Queue.Dequeueing.Returned.{run_returned}
use v4l2r.Queue.Provider.{HandlesProvider}
use v4l2r.Decoder.Capture.{
  Errno, CaptureThreadResponse, drain_done, end_of_stream, frame_decoded, DecodingQueue, decoding,
  CaptureThread, try_again, Answers, send_response, discard_all, restart, end_stream, update_if_drc,
  dequeue_capture_buffer,
}
use v4l2r.Decoder.Capture.Commands.{drain}
use v4l2r.Decoder.Capture.Running.Linked.{on_queue}
use v4l2r.Decoder.Capture.Commands.Draining.{
  Promises, Settled, drain-Promises, dequeue_capture_buffer-Promises,
}

-- The decoder waits for the responses, the ioctls that need no buffer succeed, and dropping handles does
-- not panic.
pub record Obliging {V H : Type 0} (h : HandlesProvider V H) (a : Answers V) : Type 0 where
  pub receives : a.receiver_alive ≡ true
  pub takes_command : a.decoder_cmd ≡ ok tt
  pub streams_off : a.streamoff ≡ ok tt
  pub streams_on : a.streamon ≡ ok tt
  pub takes_back : (handles : H) (v : V) → (v' : V) × (h.discard handles v ≡ done v')

module _ {V H : Type 0} (h : HandlesProvider V H) (a : Answers V) (g : Obliging h a) where
  pub sends :
      (r : CaptureThreadResponse) (t : CaptureThread V H)
      → send_response a r t ≡ done (record t { responses = r ∷ t.responses })
  unfolding send_response
  sends r t = rw g.receives refl

  discards : (bs : List (CanceledBuffer H)) (v : V) → (v' : V) × (discard_all h bs v ≡ done v')
  unfolding discard_all
  discards [] v = (v, refl)
  discards (b ∷ bs) v =
      let (v', e) = g.takes_back b.plane_handles v in
      let (v'', e') = discards bs v' in (v'', ground (arith, e, e'))

  pub restarts :
      (d : DecodingQueue V H)
      → Agree d.capture_queue.buffer_info d.capture_queue.stats
      → (d' : DecodingQueue V H) × (restart h a d ≡ done d')
        × (d'.capture_queue.buffer_info ≡ map released d.capture_queue.buffer_info)
        × Agree d'.capture_queue.buffer_info d'.capture_queue.stats
        × (discard_all h (held d.capture_queue.buffer_info) d.provider ≡ done d'.provider)
  unfolding restart stream_off
  restarts d agree =
      let (q, canceled, same, _, agree', _) = cancel_queued_buffers_total d.capture_queue agree in
      let (v, e) = discards (held d.capture_queue.buffer_info) d.provider in
      (
        record d { capture_queue = q; provider = v },
        ground (arith, g.streams_off, g.streams_on, canceled, e),
        same,
        agree',
        e,
      )

  ends_stream :
      (t : CaptureThread V H) (d : DecodingQueue V H)
      → Agree d.capture_queue.buffer_info d.capture_queue.stats
      → (t' : CaptureThread V H) × (end_stream h a t d ≡ done t')
  unfolding end_stream
  ends_stream t d agree =
      let (d', e, _, _, _) = restarts d agree in
      let ended : CaptureThread V H = record t {
        capture_queue = decoding (record d' { blocking_drain_in_progress = false });
        emitted = end_of_stream ∷ t.emitted;
      } in
      rw e (go ended d.blocking_drain_in_progress)
    where
      go :
          (ended : CaptureThread V H) (b : Bool)
          → (t' : CaptureThread V H) × (elim b [
            | true ↦ send_response a (drain_done (ok true)) ended
            | false ↦ done ended
          ]
              ≡ done t')
      go ended true = (_, sends (drain_done (ok true)) ended)
      go ended false = (ended, refl)

  abbrev pub Completes : Run (CaptureThread V H) → Type 0
  Completes r = (t' : CaptureThread V H) × (r ≡ done t')

  pub drain_returns :
      (b : BufferHandles H) (blocking : Bool) (t : CaptureThread V H)
      → Completes (drain h b a blocking t)
  unfolding drain
  drain_returns b blocking t =
      on_queue Completes t.capture_queue (λ base e. (_, sends (drain_done (err try_again)) t))
        (λ d e. rw g.takes_command (going d blocking))
    where
      going :
          (d : DecodingQueue V H) (x : Bool)
          → Completes (elim x [
            | true ↦ done (record t {
              capture_queue = decoding (record d { blocking_drain_in_progress = true });
            })
            | false ↦ send_response a (drain_done (ok false)) t
          ])
      going d true = (_, refl)
      going d false = (_, sends (drain_done (ok false)) t)

  -- If the decoder waits for the response, the kernel does what it is asked, dropping handles does
  -- not panic, no response is due and `n` were sent before, then `drain` returns, and `n + 1`
  -- responses are sent or due afterwards.
  pub drain-completes :
      (b : BufferHandles H) (blocking : Bool) (t : CaptureThread V H) (n : ℕ)
      → Settled n t
      → (t' : CaptureThread V H) × (drain h b a blocking t ≡ done t') × Promises (suc n) t'
  drain-completes b blocking t n s =
      let (t', e) = drain_returns b blocking t in
      (t', e, Returns-value (drain-Promises h b a t n s blocking) e)

  frame_returned :
      {rest : List (Result Errno RawEvent)} (t : CaptureThread V H) (d : DecodingQueue V H)
      → is_drc_event_pending a.events ≡ done (rest, ok false)
      → Agree d.capture_queue.buffer_info d.capture_queue.stats
      → (last : Bool)
      → Completes (elim last [ true ↦ update_if_drc a t (end_stream h a t d) | false ↦ done t ])
  unfolding update_if_drc
  frame_returned t d no_drc agree false = (t, refl)
  frame_returned t d no_drc agree true = rw no_drc (ends_stream t d agree)

  -- If the kernel returns a buffer `buf` that is queued in a queue whose counters agree, has no
  -- change of format pending and does what it is asked, dropping handles does not panic, and the
  -- decoder waits for responses, then `dequeue_capture_buffer` returns. As many responses are sent
  -- or due as before; and if `buf` is the LAST one, the response that was due has been sent, so
  -- that none is due any more.
  pub dequeue_capture_buffer-completes :
      {rest : List (Result Errno RawEvent)} (n : ℕ) (buf : V4l2Buffer) (t : CaptureThread V H)
      (d : DecodingQueue V H) (x : BufferInfo H) (handles : H)
      → is_drc_event_pending a.events ≡ done (rest, ok false)
      → a.dqbuf ≡ ok buf
      → t.capture_queue ≡ decoding d
      → get_elem? d.capture_queue.buffer_info buf.buffer.index ≡ some x
      → x.state ≡ queued handles
      → Agree d.capture_queue.buffer_info d.capture_queue.stats
      → Promises n t
      → (t' : CaptureThread V H) × (dequeue_capture_buffer h a t ≡ done t')
        × Promises n t'
        × (is_last buf ≡ true → Settled n t')
  unfolding dequeue_capture_buffer new_dqbuffer add_drop_callback
  dequeue_capture_buffer-completes n buf t d x handles no_drc answer now there is_queued agree p =
      let q : Allocated H = updated take_handles_of buf.buffer.index x d.capture_queue in
      let d' : DecodingQueue V H = record d { capture_queue = q } in
      let dq : DqBuffer H = new_dqbuffer q buf.buffer.index handles buf in
      let t₁ : CaptureThread V H = record t {
        capture_queue = decoding d';
        emitted = frame_decoded (add_drop_callback d.cap_buffer_waker dq) ∷ t.emitted;
      } in
      let taken = run_returned d.capture_queue buf handles there is_queued in
      let agree' =
        (updated-Changed take_handles_of buf.buffer.index d.capture_queue there).agree agree in
      let (t', e) = frame_returned t₁ d' no_drc agree' (is_last buf) in
      let whole : dequeue_capture_buffer h a t ≡ done t' = ground (arith, now, answer, taken, e) in
      let kept =
        Returns-value (dequeue_capture_buffer-Promises h a n buf t no_drc answer p) whole in
      (t', whole, kept.0, kept.1)
