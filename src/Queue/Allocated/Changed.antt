-- ===== src/Queue/Allocated/Changed.antt =====
-- lib/src/device/queue.rs: what one `update_state` changes, and what it leaves alone.
use v4l2r.Base.{
  ℕ, ◌≡◌, refl, ◌∙◌, ◌≢◌, List, none, some, arith, get_elem?, get_elem?-set_self, get_elem?-set_ne,
  get_elem?-lt, get_elem?_ext, subst, ==_refl,
}
use native.Mathlib.Decide.{ℕ_discrete}
use v4l2r.Queue.Buffers.{BufferState, BufferStats, BufferInfo, update_state}
use v4l2r.Queue.Allocated.{Allocated, WeakInfo, update_at, set_free, trigger}
use v4l2r.Queue.Allocated.Counters.{Agree, updated, update_slot-Agree}

-- From `q` to `q'` the buffer `b` at position `i` went to the state `s`, nothing else changed, and the
-- counters kept agreeing with the states.
pub record Changed {P : Type 0} (i : ℕ) (q q' : Allocated P) (b : BufferInfo P) (s : BufferState P)
    : Type 0 where
  pub found : get_elem? q.buffer_info i ≡ some b
  pub now : get_elem? q'.buffer_info i ≡ some (record b { state = s })
  pub others : (j : ℕ) → i ≢ j → get_elem? q'.buffer_info j ≡ get_elem? q.buffer_info j
  pub same_alloc : q'.alloc ≡ q.alloc
  pub same_memory : q'.memory_type ≡ q.memory_type
  pub agree : Agree q.buffer_info q.stats → Agree q'.buffer_info q'.stats

module _ {P : Type 0} where
  pub updated-Changed {ℓ} :
      {R : Type ℓ} (f : BufferState P → BufferState P × R) (i : ℕ) (q : Allocated P)
      {b : BufferInfo P}
      → get_elem? q.buffer_info i ≡ some b
      → Changed i q (updated f i b q) b (f b.state).0
  updated-Changed f i q {b} e = record {
    found = e;
    now = get_elem?-set_self q.buffer_info i _ (get_elem?-lt q.buffer_info i e);
    others = λ j ne. get_elem?-set_ne q.buffer_info i j _ ne;
    same_alloc = refl;
    same_memory = refl;
    agree = λ a. update_slot-Agree q.buffer_info q.stats i (f b.state).0 e a;
  }

  pub update_at-found {ℓ} :
      {R : Type ℓ} (f : BufferState P → BufferState P × R) (i : ℕ) (q : Allocated P)
      {b : BufferInfo P}
      → get_elem? q.buffer_info i ≡ some b
      → update_at f i q ≡ some (updated f i b q, (f b.state).1)
  unfolding update_at update_state
  update_at-found f i q {b} e = ground arith

  -- An armed fuse whose buffer still exists frees that buffer and disarms itself.
  pub trigger_live :
      (i : ℕ) (q : Allocated P) {b : BufferInfo P}
      → get_elem? q.buffer_info i ≡ some b
      → trigger (some (record { alloc = q.alloc; slot = i })) q ≡ (none, updated set_free i b q)
  unfolding trigger
  trigger_live i q {b} e = ground (arith, ==_refl q.alloc, update_at-found set_free i q e)

  -- A fuse whose queue has been freed, whether or not new buffers were allocated since, changes nothing.
  pub trigger_stale :
      (w : WeakInfo) (q : Allocated P) → w.alloc ≢ q.alloc → trigger (some w) q ≡ (some w, q)
  unfolding trigger
  trigger_stale w q h = ground arith

  stats_unique :
      (infos : List (BufferInfo P)) (s t : BufferStats) → Agree infos s → Agree infos t → s ≡ t
  stats_unique infos s t a b = ground (arith, a.frees, a.queueds, b.frees, b.queueds)

  -- Two changes of one buffer that end in the state it started from restore the queue, counters
  -- included.
  pub Changed-restores :
      (i : ℕ) (q q' q'' : Allocated P) (b b' : BufferInfo P) (s s' : BufferState P)
      → Changed i q q' b s
      → Changed i q' q'' b' s'
      → b.state ≡ s'
      → Agree q.buffer_info q.stats
      → q'' ≡ q
  Changed-restores i q q' q'' b b' s s' c c' e a =
      ground
        (arith, same_infos, same_stats, c.same_alloc, c'.same_alloc, c.same_memory, c'.same_memory)
    where
      same_infos : q''.buffer_info ≡ q.buffer_info
      same_infos = get_elem?_ext q''.buffer_info q.buffer_info λ j. elim (ℕ_discrete i j) [
        | yes p ↦ rw (← p) (ground (arith, c.found, c.now, c'.found, c'.now))
        | no p ↦ c'.others j p ∙ c.others j p
      ]

      same_stats : q''.stats ≡ q.stats
      same_stats =
          stats_unique q.buffer_info q''.stats q.stats
            (subst (λ l. Agree l q''.stats) same_infos (c'.agree (c.agree a))) a
