-- ===== src/Decoder/Stateful/Opening.antt =====
-- lib/src/decoder/stateful.rs: opening a decoder.
use v4l2r.Base.{
  ℕ, ◌≡◌, refl, Bool, true, false, not, List, Result, ok, err, Run, done, arith, ◌==◌,
  if◌then◌else◌, Bool-cases, inl, inr, subst,
}
use Prim.Native.Nat.{bit_and}
use v4l2r.Types.QueueTypes.{QueueType, video_capture_mplane, video_output_mplane, MemoryType}
use v4l2r.Queue.Creation.{
  QueueBase, CreateQueueError, already_borrowed, contains, create, drop_queue,
}
use v4l2r.Queue.Creation.Exclusive.{drop_queue-create, create-err, create-made}
use v4l2r.Decoder.Capture.{Errno}
use v4l2r.Decoder.Stateful.{
  DecoderOpenError, create_queue_error, not_a_stateful_decoder, Queues, supports_requests,
  any_format, drop_queues, open_queues,
}

module _ (kernel : QueueType → MemoryType → Result Errno ℕ) (formats : QueueType → List Bool)
    (used : List QueueType) where
  -- How `open` can end once the device is open. If it fails, the types of queue in use are those that
  -- were. If it succeeds, both of its types, which were not in use, are: neither can be taken again. The
  -- OUTPUT queue has a compressed format and no requests, and the CAPTURE queue a raw format.
  pub data Opens : Run (List QueueType × Result DecoderOpenError Queues) → Type 0 where
    refused : (e : DecoderOpenError) → Opens (done (used, err e))
    opened :
        (used' : List QueueType) (q : Queues)
        → contains video_capture_mplane used ≡ false
        → contains video_output_mplane used ≡ false
        → ((again : MemoryType → Result Errno ℕ)
            → create again video_output_mplane used' ≡ (used', err already_borrowed))
        → ((again : MemoryType → Result Errno ℕ)
            → create again video_capture_mplane used' ≡ (used', err already_borrowed))
        → any_format (λ compressed. compressed) (formats video_output_mplane) ≡ true
        → any_format not (formats video_capture_mplane) ≡ true
        → (bit_and q.output_queue.capabilities supports_requests == supports_requests) ≡ false
        → Opens (done (used', ok q))

  module _ (used' used'' : List QueueType) (capture_queue output_queue : QueueBase)
      (c : create (kernel video_capture_mplane) video_capture_mplane used
        ≡ (used', ok capture_queue))
      (o : create (kernel video_output_mplane) video_output_mplane used'
        ≡ (used'', ok output_queue)) where
    both_dropped :
        (e : DecoderOpenError)
        → drop_queues capture_queue output_queue e used'' ≡ done (used, err e)
    unfolding drop_queues
    both_dropped e =
        let first =
          drop_queue-create (kernel video_output_mplane) (kernel video_output_mplane)
            video_output_mplane used' o in
        let second =
          drop_queue-create (kernel video_capture_mplane) (kernel video_capture_mplane)
            video_capture_mplane used c in
        ground (arith, first.1, second.1)

    taken_again :
        (again : MemoryType → Result Errno ℕ)
        → create again video_capture_mplane used'' ≡ (used'', err already_borrowed)
    unfolding create contains
    taken_again again =
        let (_, made, _) = create-made (kernel video_capture_mplane) video_capture_mplane used c in
        let (_, made', _) = create-made (kernel video_output_mplane) video_output_mplane used' o in
        ground (arith, made, made')

    was_free : contains video_output_mplane used ≡ false
    unfolding contains
    was_free =
        let (_, made, _) = create-made (kernel video_capture_mplane) video_capture_mplane used c in
        let (free, _, _) = create-made (kernel video_output_mplane) video_output_mplane used' o in
        ground (arith, made, free)

    -- What `open` returns once both queues are there.
    abbrev checks : Run (List QueueType × Result DecoderOpenError Queues)
    checks =
        if any_format (λ compressed. compressed) (formats video_output_mplane)
        then if any_format not (formats video_capture_mplane)
          then if bit_and output_queue.capabilities supports_requests == supports_requests
            then drop_queues capture_queue output_queue not_a_stateful_decoder used''
            else done
                (used'', ok (record { output_queue = output_queue; capture_queue = capture_queue }))
          else drop_queues capture_queue output_queue not_a_stateful_decoder used''
        else drop_queues capture_queue output_queue not_a_stateful_decoder used''

    checked : Opens checks
    checked =
        let no_decoder : Opens
            (drop_queues capture_queue output_queue not_a_stateful_decoder used'') =
          rw (both_dropped not_a_stateful_decoder) (refused not_a_stateful_decoder) in
        elim (Bool-cases (any_format (λ compressed. compressed) (formats video_output_mplane))) [
          | inr x ↦ rw x no_decoder
          | inl x ↦ elim (Bool-cases (any_format not (formats video_capture_mplane))) [
            | inr y ↦ rw (x, y) no_decoder
            | inl y ↦
                elim (Bool-cases
                  (bit_and output_queue.capabilities supports_requests == supports_requests)) [
                    | inl z ↦ rw (x, y, z) no_decoder
                    | inr z ↦
                        rw (x, y, z)
                          (opened used'' _
                            (create-made (kernel video_capture_mplane) video_capture_mplane used
                              c).0
                            was_free
                            (λ again.
                              (drop_queue-create (kernel video_output_mplane) again
                                video_output_mplane used' o).0)
                            taken_again x y z)
                  ]
          ]
        ]

  -- Once the device is open, `open` never panics. If it fails, each type of queue that it took is given
  -- back. If it succeeds, both types, which were free, are taken, the OUTPUT queue has a compressed format
  -- and no requests, and the CAPTURE queue a format that is not compressed.
  pub open_queues-Opens : Opens (open_queues kernel formats used)
  unfolding open_queues
  open_queues-Opens = first (create (kernel video_capture_mplane) video_capture_mplane used) refl
    where
      first :
          (r : List QueueType × Result CreateQueueError QueueBase)
          → create (kernel video_capture_mplane) video_capture_mplane used ≡ r
          → Opens (open_queues kernel formats used)
      first (used', err e) c =
          let same : used' ≡ used =
            (create-err (kernel video_capture_mplane) video_capture_mplane used c).0 in
          let answer : done (used, err (create_queue_error e)) ≡ open_queues kernel formats used =
            ground (arith, c, same) in
          subst Opens answer (refused (create_queue_error e))
      first (used', ok capture_queue) c =
          second (create (kernel video_output_mplane) video_output_mplane used') refl
        where
          second :
              (r : List QueueType × Result CreateQueueError QueueBase)
              → create (kernel video_output_mplane) video_output_mplane used' ≡ r
              → Opens (open_queues kernel formats used)
          second (used'', err e) o =
              let same : used'' ≡ used' =
                (create-err (kernel video_output_mplane) video_output_mplane used' o).0 in
              let dropped : drop_queue capture_queue used' ≡ done used =
                (drop_queue-create (kernel video_capture_mplane) (kernel video_capture_mplane)
                  video_capture_mplane used c).1 in
              let answer : done (used, err (create_queue_error e))
                  ≡ open_queues kernel formats used =
                ground (arith, c, o, same, dropped) in
              subst Opens answer (refused (create_queue_error e))
          second (used'', ok output_queue) o =
              let answer : checks used' used'' capture_queue output_queue c o
                  ≡ open_queues kernel formats used =
                ground (arith, c, o) in
              subst Opens answer (checked used' used'' capture_queue output_queue c o)
