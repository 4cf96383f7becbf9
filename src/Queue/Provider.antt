-- ===== src/Queue/Provider.antt =====
-- lib/src/device/queue/handles_provider.rs: the trait `HandlesProvider` and two of its implementations.
use v4l2r.Base.{ℕ, List, ◌∷◌, Option, none, some, Result, ok, err, Run, done, bind}
use v4l2r.Queue.Allocated.{Allocated, TryGetBufferError, try_get_free_buffer}
use v4l2r.Queue.Queueing.{QBuffer, new_qbuffer}
use v4l2r.Queue.Pool.{Pool, PooledHandles, get_handles, drop_handles}

-- `GetFreeBufferError`, of `device/queue/qbuf/get_free.rs`
pub data GetFreeBufferError : Type 0 where
  no_free_buffer : GetFreeBufferError

pub data GetSuitableBufferError : Type 0 where
  try_get_free : GetFreeBufferError → GetSuitableBufferError
  try_get_indexed : TryGetBufferError → GetSuitableBufferError

-- The default of `get_suitable_buffer_for`: any free buffer.
unfoldable pub any_suitable :
    (H : Type 0) → Allocated H → Run (Allocated H × Result GetSuitableBufferError QBuffer)
any_suitable H q = bind (try_get_free_buffer q) λ r. done (
  r.0,
  elim r.1 [ none ↦ err (try_get_free no_free_buffer) | some (i, b) ↦ ok (new_qbuffer r.0 i b) ],
)

-- `HandlesProvider`, for a provider of the type `V` of handles of the type `H`. The methods of the
-- source change the provider behind a shared reference; dropping handles may change it too.
pub record HandlesProvider (V H : Type 0) : Type 0 where
  pub provide : (waker : ℕ) → V → V × Option H
  pub get_suitable_buffer_for :
      H → V → Allocated H → Run (Allocated H × Result GetSuitableBufferError QBuffer)
  pub discard : H → V → Run V

-- `MmapProvider`: the handles are there as often as they are asked for.
unfoldable pub mmap_provider : (H : Type 0) → HandlesProvider H H
mmap_provider H = record {
  provide = λ waker v. (v, some v);
  get_suitable_buffer_for = λ handles v q. any_suitable H q;
  discard = λ handles v. done v;
}

-- `PooledHandlesProvider`, with the wakers that it has woken, the last one first.
unfoldable pub pooled_provider : (H : Type 0) → HandlesProvider (Pool H × List ℕ) (PooledHandles H)
pooled_provider H = record {
  provide = λ waker v. let (p, r) = get_handles waker v.0 in ((p, v.1), r);
  get_suitable_buffer_for = λ handles v q. any_suitable (PooledHandles H) q;
  discard = λ handles v. bind (drop_handles (some v.0) handles) (woken v);
}
  where
    woken : Pool H × List ℕ → Option (Pool H) × Option ℕ → Run (Pool H × List ℕ)
    woken v (none, w) = done v
    woken v (some p, none) = done (p, v.1)
    woken v (some p, some w) = done (p, w ∷ v.1)
