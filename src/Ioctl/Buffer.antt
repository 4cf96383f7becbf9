-- ===== src/Ioctl/Buffer.antt =====
-- lib/src/ioctl.rs: `UncheckedV4l2Buffer`, `V4l2Buffer` and its accessors. The C structures are
-- records of their `u32` fields; `m`, the union with the memory backing, is the number stored in it.
-- Reading outside an array and `unwrap` on nothing are `panicked`.
pub mod Planes
pub mod Resize
pub mod Checks
use v4l2r.Base.{
  ℕ, ◌+◌, ◌-◌, Bool, ◌&&◌, not, List, [], ◌∷◌, ◌++◌, map, Option, none, some, Result, ok, err, Run,
  done, panicked, unwrap, unwrap_or, bind, ok_or, ◌>>=◌, ltb, leb, ◌==◌, if◌then◌else◌, take, drop,
  replicate, length,
}
use Prim.Native.Nat.{bit_and}
use v4l2r.Types.Enumn.{n}
use v4l2r.Types.QueueTypes.{
  memory_type_enum, queue_type_enum, QueueType, queue_type_u32, is_multiplanar, MemoryType,
  memory_type_u32,
}
use v4l2r.Types.Colors.{buffer_field_enum, BufferField}

-- `VIDEO_MAX_PLANES`
abbrev pub video_max_planes : ℕ
video_max_planes = 8

-- `bindings::v4l2_plane`
pub record V4l2Plane : Type 0 where
  pub bytesused : ℕ
  pub length : ℕ
  pub m : ℕ
  pub data_offset : ℕ

abbrev pub default_plane : V4l2Plane
default_plane = record { bytesused = 0; length = 0; m = 0; data_offset = 0 }

-- `bindings::v4l2_buffer`
pub record RawBuffer : Type 0 where
  pub index : ℕ
  pub type_ : ℕ
  pub bytesused : ℕ
  pub flags : ℕ
  pub field : ℕ
  pub tv_sec : ℕ
  pub tv_usec : ℕ
  pub sequence : ℕ
  pub memory : ℕ
  pub m : ℕ
  pub length : ℕ
  pub request_fd : ℕ

abbrev pub default_buffer : RawBuffer
default_buffer = record {
  index = 0;
  type_ = 0;
  bytesused = 0;
  flags = 0;
  field = 0;
  tv_sec = 0;
  tv_usec = 0;
  sequence = 0;
  memory = 0;
  m = 0;
  length = 0;
  request_fd = 0;
}

-- `V4l2BufferPlanes`, filled by `Default::default()`
abbrev pub default_planes : List V4l2Plane
default_planes = replicate video_max_planes default_plane

pub record UncheckedBuffer : Type 0 where
  pub raw : RawBuffer
  pub raw_planes : Option (List V4l2Plane)

-- `UncheckedV4l2Buffer::new_for_querybuf`
unfoldable pub new_for_querybuf : QueueType → Option ℕ → UncheckedBuffer
new_for_querybuf queue index = record {
  raw = record default_buffer {
    index = unwrap_or index 0;
    type_ = queue_type_u32 queue;
    length = if is_multiplanar queue then video_max_planes else 0;
  };
  raw_planes = if is_multiplanar queue then some default_planes else none;
}

pub record V4l2Buffer : Type 0 where
  pub buffer : RawBuffer
  pub planes : List V4l2Plane

-- `V4l2Buffer::new`
unfoldable pub new : QueueType → ℕ → MemoryType → V4l2Buffer
new queue index memory = record {
  buffer = record default_buffer {
    index = index;
    type_ = queue_type_u32 queue;
    memory = memory_type_u32 memory;
    length = if is_multiplanar queue then 1 else 0;
  };
  planes = default_planes;
}

-- `V4l2Buffer::queue`, `memory` and `field`: each unwraps the conversion of a stored number.
unfoldable pub queue : V4l2Buffer → Run QueueType
queue b = unwrap (n b.buffer.type_)

unfoldable pub memory : V4l2Buffer → Run MemoryType
memory b = unwrap (n b.buffer.memory)

unfoldable pub field : V4l2Buffer → Run BufferField
field b = unwrap (n b.buffer.field)

pub data BufferFromError : Type 0 where
  unknown_queue_type unknown_memory_type : ℕ → BufferFromError

-- `TryFrom<UncheckedV4l2Buffer> for V4l2Buffer`
unfoldable pub try_from : UncheckedBuffer → Result BufferFromError V4l2Buffer
try_from b = do
  q ← ok_or (n {A = QueueType} b.raw.type_) (unknown_queue_type b.raw.type_)
  m ← ok_or (n {A = MemoryType} b.raw.memory) (unknown_memory_type b.raw.memory)
  ok (record { buffer = b.raw; planes = unwrap_or b.raw_planes default_planes })

-- `From<V4l2Buffer> for UncheckedV4l2Buffer`
unfoldable pub to_unchecked : V4l2Buffer → Run UncheckedBuffer
to_unchecked b = bind (queue b) λ q.
    done (record { raw = b.buffer; raw_planes = if is_multiplanar q then some b.planes else none })

-- `V4l2Buffer::num_planes`
unfoldable pub num_planes : V4l2Buffer → Run ℕ
num_planes b = bind (queue b) λ q. done (if is_multiplanar q then b.buffer.length else 1)

-- `&xs[from..to]`
unfoldable pub slice : {A : Type 0} → ℕ → ℕ → List A → Run (List A)
slice from to xs =
    if leb from to && leb to (length xs) then done (take (to - from) (drop from xs)) else panicked

pub data ResizePlanesError : Type 0 where
  zero_planes_requested single_planar too_many_planes : ResizePlanesError

-- `for plane in &mut planes[from..to] { *plane = Default::default() }`
unfoldable pub clear_planes : ℕ → ℕ → List V4l2Plane → Run (List V4l2Plane)
clear_planes from to planes =
    if leb from to && leb to (length planes)
    then done (take from planes ++ (replicate (to - from) default_plane ++ drop to planes))
    else panicked

-- `V4l2Buffer::set_num_planes`
unfoldable pub set_num_planes :
    V4l2Buffer → ℕ → Run (V4l2Buffer × Result ResizePlanesError (Unit {0}))
set_num_planes b num_planes = bind (queue b) λ q.
    if num_planes == 0
    then done (b, err zero_planes_requested)
    else if ltb video_max_planes num_planes
    then done (b, err too_many_planes)
    else if not (is_multiplanar q)
    then done (b, (if num_planes == 1 then ok tt else err single_planar))
    else bind (clear_planes num_planes b.buffer.length b.planes) λ planes.
      done (record b { buffer = record (b.buffer) { length = num_planes }; planes = planes }, ok tt)

-- `V4l2PlaneAccessor`
pub record PlaneAccessor : Type 0 where
  pub bytesused : ℕ
  pub length : ℕ
  pub data_offset : Option ℕ

-- `V4l2PlaneAccessor::new_single_planar` and `new_multi_planar`
unfoldable pub new_single_planar : RawBuffer → PlaneAccessor
new_single_planar b = record { bytesused = b.bytesused; length = b.length; data_offset = none }

unfoldable pub new_multi_planar : V4l2Plane → PlaneAccessor
new_multi_planar p = record {
  bytesused = p.bytesused;
  length = p.length;
  data_offset = some p.data_offset;
}

-- `V4l2Buffer::as_v4l2_planes`
unfoldable pub as_v4l2_planes : V4l2Buffer → Run (List V4l2Plane)
as_v4l2_planes b =
    bind (queue b) λ q. slice 0 (if is_multiplanar q then b.buffer.length else 0) b.planes

-- `V4l2Buffer::planes_iter`: the single-planar view, the multi-planar ones, without the first if the
-- buffer is multi-planar.
unfoldable pub planes_iter : V4l2Buffer → Run (List PlaneAccessor)
planes_iter b = bind (queue b) λ q. bind (as_v4l2_planes b) λ planes. done (
    drop (if is_multiplanar q then 1 else 0)
      (new_single_planar b.buffer ∷ map new_multi_planar planes))

-- The first item of an iterator.
unfoldable pub head? : {A : Type 0} → List A → Option A
head? [] = none
head? (x ∷ xs) = some x

-- `V4l2Buffer::get_first_plane`
unfoldable pub get_first_plane : V4l2Buffer → Run PlaneAccessor
get_first_plane b = bind (planes_iter b) λ l. unwrap (head? l)

-- `V4L2_BUF_FLAG_LAST`
abbrev pub flag_last : ℕ
flag_last = 1048576

-- The union of the bits of `BufferFlags`, which `from_bits_truncate` keeps.
abbrev pub all_buffer_flags : ℕ
all_buffer_flags =
    1 + 2 + 4 + 64 + 8 + 16 + 32 + 256 + 1024 + 4096 + 2048 + 1048576 + 8192 + 16384 + 65536

-- `V4l2Buffer::flags` and `is_last`
unfoldable pub flags : V4l2Buffer → ℕ
flags b = bit_and b.buffer.flags all_buffer_flags

unfoldable pub is_last : V4l2Buffer → Bool
is_last b = bit_and (flags b) flag_last == flag_last
