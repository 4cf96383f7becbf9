-- ===== src/Queue/Protocol/Invariant.antt =====
-- lib/src/device/queue.rs: the holders of the buffers, their states and the counters.
use v4l2r.Base.{
  ℕ, zero, suc, ◌≡◌, refl, sym, ap, ◌∙◌, true, List, [], ◌∷◌, map, Option, none, some, Result, ok,
  err, Run, done, arith, get_elem?, ==_refl, ==_ne, subst, Option-cases, inl, inr,
}
use native.Mathlib.Decide.{ℕ_discrete}
use v4l2r.Ioctl.Buffer.{V4l2Buffer}
use v4l2r.Queue.Buffers.{
  QueryBuffer, BufferState, free, pre_queue, dequeued, queued, BufferStats, BufferInfo, new_stats,
  new_info, is_queued,
}
use v4l2r.Queue.Allocated.{
  Allocated, steal, set_free, TryGetBufferError, register, trigger, try_obtain_buffer,
}
use v4l2r.Queue.Allocated.Counters.{Agree, updated}
use v4l2r.Queue.Allocated.Changed.{Changed, updated-Changed, trigger_live}
use v4l2r.Queue.Allocated.Cancel.{released}
use v4l2r.Queue.Allocated.Obtain.{register-Agree, try_obtain_buffer-err}
use v4l2r.Queue.Queueing.{QBuffer, try_get_buffer}
use v4l2r.Queue.Queueing.Outcome.{Reserved}
use v4l2r.Queue.Queueing.Restore.{Numbered}
use v4l2r.Queue.Dequeueing.{DqBufError, DqBuffer}
use v4l2r.Queue.Dequeueing.Returned.{Dequeues, returned, inconsistent}
use v4l2r.Queue.Protocol.{Holder, nobody, preparer, driver, reader, give, withdrawn, Fresh, IsFor}

module _ {P : Type 0} where
  -- Who holds a buffer, by its state.
  abbrev pub holder_of : BufferState P → Holder
  holder_of free = nobody
  holder_of pre_queue = preparer
  holder_of (queued _) = driver
  holder_of dequeued = reader

  -- A position without a buffer has no holder.
  abbrev pub holder_at : Option (BufferInfo P) → Holder
  holder_at none = nobody
  holder_at (some b) = holder_of b.state

  pub record Invariant (q : Allocated P) (w : ℕ → Holder) : Type 0 where
    pub agree : Agree q.buffer_info q.stats
    pub numbered : Numbered q
    pub matches : (j : ℕ) → w j ≡ holder_at (get_elem? q.buffer_info j)

  Changed-Numbered :
      {i : ℕ} {q q' : Allocated P} {b : BufferInfo P} {s : BufferState P}
      → Changed i q q' b s
      → Numbered q
      → Numbered q'
  Changed-Numbered {i} {q} {q'} {b} {s} c n = record {
    index_at = λ j b' e. elim (ℕ_discrete i j) [
      | yes p ↦
          let there : get_elem? q'.buffer_info j ≡ some (record b { state = s }) =
            subst (λ k. get_elem? q'.buffer_info k ≡ some (record b { state = s })) p c.now in
          let same : b.features ≡ b'.features = ground arith in
          ap QueryBuffer.index (sym same) ∙ n.index_at i b c.found ∙ p
      | no p ↦ n.index_at j b' (sym (c.others j p) ∙ e)
    ];
  }

  pub Changed-Invariant :
      {i : ℕ} {q q' : Allocated P} {w : ℕ → Holder} {b : BufferInfo P} {s : BufferState P}
      → Invariant q w
      → Changed i q q' b s
      → Invariant q' (give i (holder_of s) w)
  Changed-Invariant {i} {q} {q'} {w} inv c = record {
    agree = c.agree inv.agree;
    numbered = Changed-Numbered c inv.numbered;
    matches = λ j. elim (ℕ_discrete i j) [
      | yes p ↦ rw (← p, ==_refl i, c.now) refl
      | no p ↦ rw (==_ne i j p, c.others j p) (inv.matches j)
    ];
  }

  holder_at-preparer :
      (o : Option (BufferInfo P))
      → holder_at o ≡ preparer
      → (b : BufferInfo P) × (o ≡ some b) × (b.state ≡ pre_queue)
  holder_at-preparer none e = absurd (cc)
  holder_at-preparer (some b) e = (b, refl, go b.state e)
    where
      go : (s : BufferState P) → holder_of s ≡ preparer → s ≡ pre_queue
      go s e = ground arith

  pub holder_at-reader :
      (o : Option (BufferInfo P))
      → holder_at o ≡ reader
      → (b : BufferInfo P) × (o ≡ some b) × (b.state ≡ dequeued)
  holder_at-reader none e = absurd (cc)
  holder_at-reader (some b) e = (b, refl, go b.state e)
    where
      go : (s : BufferState P) → holder_of s ≡ reader → s ≡ dequeued
      go s e = ground arith

  pub holder_at-driver :
      (o : Option (BufferInfo P))
      → holder_at o ≡ driver
      → (b : BufferInfo P) × (o ≡ some b) × (is_queued b.state ≡ true)
  holder_at-driver none e = absurd (cc)
  holder_at-driver (some b) e = (b, refl, go b.state e)
    where
      go : (s : BufferState P) → holder_of s ≡ driver → is_queued s ≡ true
      go s e = ground arith

  pub preparer-Reserved :
      {q : Allocated P} {w : ℕ → Holder} {i : ℕ} {qb : QBuffer}
      → Invariant q w
      → w i ≡ preparer
      → IsFor q i qb
      → (b : BufferInfo P) × Reserved i q b qb
  preparer-Reserved {q} {w} {i} inv e f =
      let (b, there, s) =
        holder_at-preparer (get_elem? q.buffer_info i) (sym (inv.matches i) ∙ e) in
      (b, record { found = there; is_reserved = s; index = f.index; fuse = f.fuse })

  -- The invariant of a fresh queue.
  fresh_at :
      (fs : List QueryBuffer) (stats : BufferStats) (i : ℕ)
      → get_elem? (register {P = P} fs stats).0 i ≡ elim (get_elem? fs i) [
        | none ↦ none
        | some f ↦ some (record { features = f; state = free })
      ]
  unfolding register new_info
  fresh_at [] stats i = refl
  fresh_at (f ∷ fs) stats zero = refl
  fresh_at (f ∷ fs) stats (suc i) = fresh_at fs _ i

  pub Fresh-Invariant : (q : Allocated P) → Fresh q → Invariant q (λ j. nobody)
  unfolding new_stats
  Fresh-Invariant q f =
      let made = register-Agree P f.features new_stats (omega (arith, f.few)) in
      record {
        agree =
            rw (f.infos, f.counted)
              (record {
                frees = omega (arith, made.0, made.2);
                queueds = omega (arith, made.1, made.3);
                small = omega (arith, made.4, f.few);
              });
        numbered = record {
          index_at = λ i b e. elim (Option-cases (get_elem? f.features i)) [
            | inl n ↦ absurd (ground (arith, fresh_at f.features new_stats i, f.infos))
            | inr (x, n) ↦
                let same : b ≡ record { features = x; state = free } =
                  ground (arith, fresh_at f.features new_stats i, f.infos) in
                rw same (f.numbered i x n)
          ];
        };
        matches = λ j. elim (Option-cases (get_elem? f.features j)) [
          | inl n ↦ rw (f.infos, fresh_at f.features new_stats j, n) refl
          | inr (x, n) ↦ rw (f.infos, fresh_at f.features new_stats j, n) refl
        ];
      }

  pub released-Invariant :
      (q q' : Allocated P) (w : ℕ → Holder)
      → Invariant q w
      → q'.buffer_info ≡ map released q.buffer_info
      → Agree q'.buffer_info q'.stats
      → Invariant q' (λ j. withdrawn (w j))
  released-Invariant q q' w inv e a = record {
    agree = a;
    numbered = record {
      index_at = λ i b there.
          let (b₀, there₀, same) =
            released_from q.buffer_info i b (ap (λ l. get_elem? l i) (sym e) ∙ there) in
          ap QueryBuffer.index same ∙ inv.numbered.index_at i b₀ there₀;
    };
    matches = λ j. rw (e, inv.matches j) (sym (at_released q.buffer_info j));
  }
    where
      released_from :
          (infos : List (BufferInfo P)) (i : ℕ) (b : BufferInfo P)
          → get_elem? (map released infos) i ≡ some b
          → (b₀ : BufferInfo P) × (get_elem? infos i ≡ some b₀) × (b.features ≡ b₀.features)
      released_from [] i b there = absurd (cc)
      released_from (x ∷ infos) zero b there = (x, refl, ground arith)
      released_from (x ∷ infos) (suc i) b there = released_from infos i b there

      at_released :
          (infos : List (BufferInfo P)) (j : ℕ)
          → holder_at (get_elem? (map released infos) j) ≡ withdrawn (holder_at (get_elem? infos j))
      at_released [] j = refl
      at_released (b ∷ infos) zero = go b.state
        where
          go : (s : BufferState P) → holder_of (steal s).0 ≡ withdrawn (holder_of s)
          go s = ground arith
      at_released (b ∷ infos) (suc j) = at_released infos j

  pub abandoned :
      {q : Allocated P} {i : ℕ} {b : BufferInfo P} {qb : QBuffer}
      → Reserved i q b qb
      → Changed i q (trigger qb.fuse q).1 b free
  abandoned {q} {i} {b} {qb} r =
      let freed : (trigger qb.fuse q).1 ≡ updated set_free i b q =
        rw (r.fuse, trigger_live i q r.found) refl in
      rw freed (updated-Changed set_free i q r.found)

  pub refused_same :
      (q : Allocated P) (i : ℕ) {q' : Allocated P} {x : TryGetBufferError}
      → try_get_buffer q i ≡ (q', err x)
      → Agree q.buffer_info q.stats
      → q ≡ q'
  unfolding try_get_buffer
  refused_same q i {q'} {x} h a = go (try_obtain_buffer q i) refl
    where
      go :
          (r : Allocated P × Result TryGetBufferError (BufferInfo P))
          → try_obtain_buffer q i ≡ r
          → q ≡ q'
      go (q₁, ok b) e = absurd (ground arith)
      go (q₁, err y) e =
          let same : q₁ ≡ q' = ground arith in sym ((try_obtain_buffer-err q i e a).0) ∙ same

  pub dequeued_change :
      {q : Allocated P} {buf : V4l2Buffer} {o : Run (Allocated P × Result DqBufError (DqBuffer P))}
      {q' : Allocated P} {dq : DqBuffer P}
      → Dequeues q buf o
      → o ≡ done (q', ok dq)
      → (b : BufferInfo P) × Changed buf.buffer.index q q' b dequeued
  dequeued_change {q} {buf} {q' = q'} (returned x b handles s c) e =
      let same : x ≡ q' = ground arith in
      (b, subst (λ y. Changed buf.buffer.index q y b dequeued) same c)
  dequeued_change (inconsistent n) e = absurd (ground arith)
