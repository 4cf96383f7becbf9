-- ===== src/Queue/Allocated/Cancel.antt =====
-- lib/src/device/queue.rs: what `cancel_queued_buffers` returns and leaves.
use v4l2r.Base.{
  ℕ, suc, ◌+◌, ◌<◌, ◌≡◌, refl, sym, ap, ◌∙◌, false, List, [], ◌∷◌, map, done, arith, length,
}
use v4l2r.Queue.Buffers.{
  BufferState, queued, BufferStats, BufferInfo, update_state, leave, enter, is_free, is_queued,
  usize_mod,
}
use v4l2r.Queue.Allocated.{Allocated, CanceledBuffer, steal, cancel_all, cancel_queued_buffers}
use v4l2r.Queue.Allocated.Counters.{one_if, count, Agree, count-le, enter-leave, one_if-le}

module _ {P : Type 0} where
  -- The handles that the queue holds, each with the index of its buffer, in the order of the buffers.
  unfoldable pub held : List (BufferInfo P) → List (CanceledBuffer P)
  held [] = []
  held (b ∷ rest) = elim b.state [
    | queued h ↦ record { index = b.features.index; plane_handles = h } ∷ held rest
    | _ ↦ held rest
  ]

  -- A queued buffer becomes free; any other one stays as it is.
  abbrev pub released : BufferInfo P → BufferInfo P
  released b = record b { state = (steal b.state).0 }

  -- The counters, where the buffers `infos` are only some of those that they count.
  record AgreeOver (f k : ℕ) (infos : List (BufferInfo P)) (stats : BufferStats) : Type 0 where
    frees : stats.num_free ≡ f + count is_free infos
    queueds : stats.num_queued ≡ k + count is_queued infos
    small_free : f + length infos < usize_mod
    small_queued : k + length infos < usize_mod

  record Cancels (f k : ℕ) (infos : List (BufferInfo P)) (stats : BufferStats) : Type 0 where
    infos_released : (cancel_all infos stats).0 ≡ map released infos
    frees_released : (cancel_all infos stats).1.num_free ≡ f + count is_free (map released infos)
    queueds_kept : (cancel_all infos stats).1.num_queued ≡ k
    handles_returned : (cancel_all infos stats).2 ≡ held infos

  steal-is_queued : (s : BufferState P) → is_queued (steal s).0 ≡ false
  steal-is_queued s = ground arith

  -- The counters after the first buffer has been visited, for the buffers that are left.
  visit-AgreeOver :
      (f k : ℕ) (b : BufferInfo P) (rest : List (BufferInfo P)) (stats : BufferStats)
      → AgreeOver f k (b ∷ rest) stats
      → AgreeOver
          (f + one_if (is_free (steal b.state).0))
          k
          rest
          (enter (steal b.state).0 (leave b.state stats))
  unfolding count
  visit-AgreeOver f k b rest stats a = record {
    frees = omega (arith, moved.0);
    queueds = omega (arith, moved.1, ap one_if (steal-is_queued b.state));
    small_free = omega (arith, a.small_free, one_if-le (is_free (steal b.state).0));
    small_queued = omega (arith, a.small_queued);
  }
    where
      moved :
          let f' = f + count is_free rest in
          let k' = k + count is_queued rest in
          let after = enter (steal b.state).0 (leave b.state stats) in
          (after.num_free ≡ f' + one_if (is_free (steal b.state).0))
          × (after.num_queued ≡ k' + one_if (is_queued (steal b.state).0))
      moved =
          enter-leave b.state (steal b.state).0 stats _ _ (omega (arith, a.frees))
            (omega (arith, a.queueds)) (omega (arith, a.small_free, count-le is_free rest))
            (omega (arith, a.small_queued, count-le is_queued rest))

  visit-Cancels :
      (f k : ℕ) (b : BufferInfo P) (rest : List (BufferInfo P)) (stats : BufferStats)
      → Cancels
          (f + one_if (is_free (steal b.state).0))
          k
          rest
          (enter (steal b.state).0 (leave b.state stats))
      → Cancels f k (b ∷ rest) stats
  unfolding cancel_all count held update_state
  visit-Cancels f k b rest stats ih = record {
    infos_released = ap (◌∷◌ (released b)) ih.infos_released;
    frees_released = omega (arith, ih.frees_released);
    queueds_kept = ih.queueds_kept;
    handles_returned = ground (arith, ih.handles_returned);
  }

  cancel_all_lem :
      (f k : ℕ) (infos : List (BufferInfo P)) (stats : BufferStats)
      → AgreeOver f k infos stats
      → Cancels f k infos stats
  unfolding cancel_all count held
  cancel_all_lem f k [] stats a = record {
    infos_released = refl;
    frees_released = a.frees;
    queueds_kept = omega (arith, a.queueds);
    handles_returned = refl;
  }
  cancel_all_lem f k (b ∷ rest) stats a = visit-Cancels f k b rest stats (
      cancel_all_lem (f + one_if (is_free (steal b.state).0)) k rest
        (enter (steal b.state).0 (leave b.state stats)) (visit-AgreeOver f k b rest stats a))

  pub count-released : (infos : List (BufferInfo P)) → count is_queued (map released infos) ≡ 0
  unfolding count
  count-released [] = refl
  count-released (b ∷ rest) =
      omega (arith, count-released rest, ap one_if (steal-is_queued b.state))

  length-released : (infos : List (BufferInfo P)) → length (map released infos) ≡ length infos
  length-released [] = refl
  length-released (b ∷ rest) = ap suc (length-released rest)

  -- With counters that agree with the states, `cancel_queued_buffers` passes its assertion. It returns
  -- exactly the handles that the queue held, each with the index of its buffer, frees the buffers that
  -- were queued, leaves the others as they were, and leaves counters that agree, with none queued.
  pub cancel_queued_buffers_total :
      (q : Allocated P)
      → Agree q.buffer_info q.stats
      → (q' : Allocated P) × (cancel_queued_buffers q ≡ done (q', held q.buffer_info))
        × (q'.buffer_info ≡ map released q.buffer_info)
        × (q'.alloc ≡ q.alloc)
        × Agree q'.buffer_info q'.stats
        × (q'.stats.num_queued ≡ 0)
  unfolding cancel_queued_buffers
  cancel_queued_buffers_total q a = (
    record q {
      buffer_info = (cancel_all q.buffer_info q.stats).0;
      stats = (cancel_all q.buffer_info q.stats).1;
    },
    ground (arith, c.queueds_kept, c.handles_returned),
    c.infos_released,
    refl,
    rw c.infos_released (record {
      frees = omega (arith, c.frees_released);
      queueds = c.queueds_kept ∙ sym (count-released q.buffer_info);
      small = omega (arith, length-released q.buffer_info, a.small);
    }),
    c.queueds_kept,
  )
    where
      c : Cancels 0 0 q.buffer_info q.stats
      c = cancel_all_lem 0 0 q.buffer_info q.stats (record {
        frees = omega (arith, a.frees);
        queueds = omega (arith, a.queueds);
        small_free = omega (arith, a.small);
        small_queued = omega (arith, a.small);
      })
