-- ===== src/Queue/Pool.antt =====
-- lib/src/device/queue/handles_provider.rs: the pool of handles that are recycled when they are dropped.
-- A waker is a number. The mutex makes each operation one step.
pub mod Recycling
use v4l2r.Base.{ℕ, List, [], ◌∷◌, ◌++◌, Option, none, some, Run, done, panicked}

-- `PooledHandlesProviderInternal`
pub record Pool (H : Type 0) : Type 0 where
  pub buffers : List H
  pub waker : Option ℕ

-- `PooledHandles`, without the reference to the pool, which is passed along.
pub record PooledHandles (H : Type 0) : Type 0 where
  pub handles : Option H

module _ {H : Type 0} where
  -- `PooledHandlesProvider::new`
  unfoldable pub new_pool : List H → Pool H
  new_pool buffers = record { buffers = buffers; waker = none }

  -- `get_handles` of `PooledHandlesProvider`
  unfoldable pub get_handles : ℕ → Pool H → Pool H × Option (PooledHandles H)
  get_handles waker p = elim p.buffers [
    | [] ↦ (record p { waker = some waker }, none)
    | h ∷ rest ↦ (record p { buffers = rest }, some (record { handles = some h }))
  ]

  -- `Drop for PooledHandles`; the pool is `none` if it no longer exists. The waker that was woken, if
  -- any, is returned. Taking the handles is the `unwrap` of an `Option`.
  unfoldable pub drop_handles : Option (Pool H) → PooledHandles H → Run (Option (Pool H) × Option ℕ)
  drop_handles none ph = done (none, none)
  drop_handles (some p) ph = elim ph.handles [
    | none ↦ panicked
    | some h ↦ done (some (record { buffers = p.buffers ++ h ∷ []; waker = none }), p.waker)
  ]
