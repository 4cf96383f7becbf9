-- ===== src/Memory.antt =====
-- lib/src/memory.rs and lib/src/memory/: handles for the memory of a buffer, and what each kind writes
-- into a plane. The union `m` of a plane is its eight bytes, the least significant first.
pub mod Vectors
use v4l2r.Base.{ℕ, ◌<◌, ◌≡◌, Run, done}
use v4l2r.Ioctl.Buffer.{V4l2Plane}

-- The trait `BufferHandles`: the number of planes, and the filling of the plane `index`, which may
-- panic.
pub record BufferHandles (P : Type 0) : Type 0 where
  pub len : P → ℕ
  pub fill_v4l2_plane : P → ℕ → V4l2Plane → Run V4l2Plane

-- What the queue relies on: a plane below the number of planes can be filled.
pub record FillsPlanes {P : Type 0} (h : BufferHandles P) : Type 0 where
  pub fills :
      (handles : P) (i : ℕ) (p : V4l2Plane)
      → i < h.len handles
      → (p' : V4l2Plane) × (h.fill_v4l2_plane handles i p ≡ done p')
