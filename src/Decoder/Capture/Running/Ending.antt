-- ===== src/Decoder/Capture/Running/Ending.antt =====
-- lib/src/decoder/stateful/capture_thread.rs: the first and the last state of the thread, and the beginning of
-- a turn.
use v4l2r.Base.{
  ◌≡◌, refl, sym, ap, ◌∙◌, Bool, true, false, not, [], ◌∷◌, none, Result, ok, err, done, bind,
  unwrap_ok, ◌==◌, Returns, returns, panics, Returns-any, Succeeds, succeeds, fails,
}
use v4l2r.Poller.{
  Poller, Waker, IoError, lookup, add_waker, new_poller, set_event, v4l2_event, capture_ready,
  output_ready, remove_waker, no_flags, is_event_enabled,
}
use v4l2r.Poller.Registration.{InStep, set_event-ok}
use v4l2r.Poller.Keyed.{no_wakers, one_more, add_waker-ok, set_event-wakers}
use v4l2r.Queue.Allocated.{num_queued_buffers}
use v4l2r.Queue.Dequeueing.{stream_off, free_buffers}
use v4l2r.Queue.Creation.{QueueBase}
use v4l2r.Decoder.Capture.{
  Errno, capture_ready_id, command_waiting_id, DecodingQueue, CaptureQueue, awaiting_resolution,
  decoding, CaptureThread, Answers, new_thread,
}
use v4l2r.Decoder.Capture.Listening.{
  Mode, waits, decodes, Linked, Switched, set_event-Switched, removed-Listens,
}
use v4l2r.Decoder.Capture.Running.{adjust_polling, finish}
use v4l2r.Decoder.Capture.Running.Linked.{is_decoding, on_queue, Stays}

module _ {V H : Type 0} where
  -- The thread awaits the format, and polls for what fits that.
  pub record Waiting (t : CaptureThread V H) : Type 0 where
    pub linked : Linked t
    pub not_decoding : is_decoding t.capture_queue ≡ false

  module _ (a : Answers V) (base : QueueBase) where
    command_waker :
        (p : Poller)
        → InStep p
        → p.wakers ≡ []
        → p.events_enabled ≡ true
        → p.capture_enabled ≡ false
        → p.output_enabled ≡ false
        → (r : Poller × Result IoError Waker) → add_waker command_waiting_id a.eventfd a.add p ≡ r
        → Succeeds Waiting (elim r.1 [
          | err e ↦ err e
          | ok _ ↦ ok (record {
            capture_queue = awaiting_resolution base;
            poller = r.0;
            responses = [];
            emitted = [];
          })
        ])
    unfolding lookup
    command_waker p s nil ev ca ou (p', err e) h = fails
    command_waker p s nil ev ca ou (p', ok w) h =
        let (missing, eq) = add_waker-ok command_waiting_id a.eventfd a.add p h in
        let only : p' ≡ record p { wakers = (command_waiting_id, w) ∷ [] } =
          eq ∙ ap (λ l. record p { wakers = (command_waiting_id, w) ∷ l }) nil in
        succeeds (record {
          linked = record {
            listens = rw only (record {
              in_step = record {
                listens_in = s.listens_in;
                listens_out = s.listens_out;
                listens_pri = s.listens_pri;
              };
              no_output = ou;
              commands_wake = (w, refl);
              keyed = one_more refl no_wakers;
            });
            mode = rw only (waits ev ca refl);
          };
          not_decoding = refl;
        })

    first_event :
        (p : Poller)
        → InStep p
        → p.wakers ≡ []
        → p.capture_enabled ≡ false
        → p.output_enabled ≡ false
        → (r : Poller × Result Errno (Unit {0})) → set_event a.modify_first v4l2_event true p ≡ r
        → Succeeds Waiting (elim r.1 [
          | err e ↦ err (IoError.os e)
          | ok _ ↦
              let (p', w) = add_waker command_waiting_id a.eventfd a.add r.0 in
              elim w [
                | err e ↦ err e
                | ok _ ↦ ok (record {
                  capture_queue = awaiting_resolution base;
                  poller = p';
                  responses = [];
                  emitted = [];
                })
              ]
        ])
    unfolding is_event_enabled
    first_event p s nil ca ou (p', err e) h = fails
    first_event p s nil ca ou (p', ok _) h =
        let (s', now, others) = set_event-ok a.modify_first v4l2_event true p s h in
        let still : p'.wakers ≡ [] =
          ap (λ r. r.0.wakers) (sym h) ∙ set_event-wakers a.modify_first v4l2_event true p ∙ nil in
        command_waker p' s' still now (others capture_ready (λ e. cc e) ∙ ca)
          (others output_ready (λ e. cc e) ∙ ou) (add_waker command_waiting_id a.eventfd a.add p')
          refl

    -- A thread that `new` returns awaits the format and polls for what fits that, whatever the kernel
    -- answers.
    pub new_thread-Waiting :
        (created first second : Result Errno (Unit {0}))
        → Succeeds Waiting (new_thread {H = H} a base (new_poller created first second))
    unfolding new_thread new_poller
    new_thread-Waiting (err e) first second = fails
    new_thread-Waiting (ok _) (err e) second = fails
    new_thread-Waiting (ok _) (ok _) (err e) = fails
    new_thread-Waiting (ok _) (ok _) (ok _) =
        let p : Poller = record {
          wakers = [];
          registered = no_flags;
          capture_enabled = false;
          output_enabled = false;
          events_enabled = false;
          poll_wakeups_counter = none;
        } in
        first_event p (record { listens_in = refl; listens_out = refl; listens_pri = refl }) refl
          refl refl (set_event a.modify_first v4l2_event true p) refl

  adjusted :
      (modify : Result Errno (Unit {0})) (t : CaptureThread V H) (d : DecodingQueue V H)
      → t.capture_queue ≡ decoding d
      → Linked t
      → (wanted : Bool) (r : Poller × Result Errno (Unit {0}))
      → set_event modify capture_ready wanted t.poller ≡ r
      → Returns (Stays t) (bind (unwrap_ok r.1) λ _. done (record t { poller = r.0 }))
  unfolding is_event_enabled
  adjusted modify t d e l wanted (p, err x) h = panics
  adjusted modify t d e l wanted (p, ok _) h = returns (record {
    linked = record { listens = s.listens; mode = go t.capture_queue e l.mode };
    same_state = refl;
  })
    where
      s : Switched capture_ready wanted t.poller p
      s = set_event-Switched modify capture_ready wanted t.poller (λ x. cc x) l.listens h

      go : (c : CaptureQueue V H) → c ≡ decoding d → Mode c t.poller → Mode c p
      go (awaiting_resolution base) e' m = absurd (cc)
      go (decoding d') e' (decodes n (w, there)) =
          decodes (s.others v4l2_event (λ x. cc x) ∙ n)
            (w, ap (lookup capture_ready_id) s.wakers_kept ∙ there)

  pub adjust_polling-Stays :
      (modify : Result Errno (Unit {0})) (t : CaptureThread V H)
      → Linked t
      → Returns (Stays t) (adjust_polling modify t)
  unfolding adjust_polling
  adjust_polling-Stays modify t l =
      on_queue (Returns (Stays t)) t.capture_queue
        (λ base e. returns (record { linked = l; same_state = refl }))
        (λ d e.
          let wanted : Bool = not (num_queued_buffers d.capture_queue == 0) in
          adjusted modify t d e l wanted (set_event modify capture_ready wanted t.poller) refl)

  back_to_waiting :
      (a : Answers V) (t : CaptureThread V H) (d : DecodingQueue V H)
      → Linked t
      → (r : Poller × Result Errno (Unit {0}))
      → set_event a.modify_first capture_ready false t.poller ≡ r
      → (r' : Poller × Result Errno (Unit {0})) → set_event a.modify_second v4l2_event true r.0 ≡ r'
      → (r'' : Poller × Result IoError Waker) → remove_waker capture_ready_id a.delete r'.0 ≡ r''
      → Returns Waiting (
          bind (unwrap_ok r.1) λ _. bind (unwrap_ok r'.1) λ _.
            bind
              (unwrap_ok r''.1)
              λ _. done (record t { capture_queue = awaiting_resolution d.base; poller = r''.0 }))
  unfolding is_event_enabled
  back_to_waiting a t d l (p, err e) h r' h' r'' h'' = panics
  back_to_waiting a t d l (p, ok _) h (p', err e) h' r'' h'' = panics
  back_to_waiting a t d l (p, ok _) h (p', ok _) h' (p'', err e) h'' = panics
  back_to_waiting a t d l (p, ok _) h (p', ok _) h' (p'', ok w) h'' =
      let s =
        set_event-Switched a.modify_first capture_ready false t.poller (λ x. cc x) l.listens h in
      let s' = set_event-Switched a.modify_second v4l2_event true p (λ x. cc x) s.listens h' in
      let (listens, gone, same_events, same_capture) = removed-Listens a.delete p' s'.listens h'' in
      returns (record {
        linked = record {
          listens = listens;
          mode =
              waits (same_events ∙ s'.now)
                (same_capture ∙ s'.others capture_ready (λ x. cc x) ∙ s.now) gone;
        };
        not_decoding = refl;
      })

  pub finish-Waiting :
      (a : Answers V) (t : CaptureThread V H) → Linked t → Returns Waiting (finish a t)
  unfolding finish
  finish-Waiting a t l =
      on_queue (Returns Waiting) t.capture_queue
        (λ base e. returns (record { linked = l; not_decoding = ap is_decoding e }))
        (λ d e. Returns-any (stream_off a.streamoff d.capture_queue) (λ s.
          Returns-any (unwrap_ok s.1) (λ _.
            Returns-any (free_buffers a.free_answer s.0) (λ f.
              Returns-any (unwrap_ok f) (λ _. back_to_waiting a t d l _ refl _ refl _ refl)))))
