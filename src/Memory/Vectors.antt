-- ===== src/Memory/Vectors.antt =====
-- lib/src/memory.rs: `BufferHandles` for vectors of plane handles; lib/src/memory/mmap.rs, userptr.rs
-- and dmabuf.rs: what the three plane handles write.
use v4l2r.Base.{
  ℕ, zero, suc, ◌+◌, ◌*◌, ◌/◌, ◌%◌, ◌^◌, ◌<◌, ◌≡◌, refl, List, [], ◌∷◌, none, some, Run, done,
  panicked, length, get_elem?, arith,
}
use v4l2r.Memory.{BufferHandles, FillsPlanes}
use v4l2r.Ioctl.Buffer.{V4l2Plane}

-- `MmapHandle`, `UserPtrHandle` with the address and the length of its slice, `DmaBufHandle` with its
-- file descriptor and the length of the file.
pub data Handle : Type 0 where
  mmap_handle : Handle
  user_ptr_handle : (ptr len : ℕ) → Handle
  dma_buf_handle : (fd len : ℕ) → Handle

-- `PlaneHandle::fill_v4l2_plane`. A file descriptor takes the low four bytes of the union.
unfoldable pub fill_plane : Handle → V4l2Plane → V4l2Plane
fill_plane mmap_handle p = p
fill_plane (user_ptr_handle ptr len) p = record p { m = ptr % 2 ^ 64; length = len % 2 ^ 32 }
fill_plane (dma_buf_handle fd len) p = record p {
  m = p.m / 2 ^ 32 * 2 ^ 32 + fd % 2 ^ 32;
  length = len % 2 ^ 32;
}

-- `Vec::len` and the indexing `self[index]`.
unfoldable pub vector_len : List Handle → ℕ
vector_len hs = length hs

unfoldable pub vector_fill : List Handle → ℕ → V4l2Plane → Run V4l2Plane
vector_fill hs i p = elim (get_elem? hs i) [ none ↦ panicked | some h ↦ done (fill_plane h p) ]

-- A vector of handles as `BufferHandles`.
abbrev pub vector_handles : BufferHandles (List Handle)
vector_handles = record { len = vector_len; fill_v4l2_plane = vector_fill }

in_bounds : {A : Type 0} (xs : List A) (i : ℕ) → i < length xs → (a : A) × (get_elem? xs i ≡ some a)
in_bounds [] i h = absurd (omega arith)
in_bounds (x ∷ xs) zero h = (x, refl)
in_bounds (x ∷ xs) (suc i) h = in_bounds xs i (omega arith)

-- Every plane below the length of the vector can be filled.
pub vector-FillsPlanes : FillsPlanes vector_handles
unfolding vector_len vector_fill
vector-FillsPlanes = record {
  fills = λ hs i p h. let (a, e) = in_bounds hs i h in (fill_plane a p, ground arith);
}
