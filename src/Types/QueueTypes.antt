-- ===== src/Types/QueueTypes.antt =====
-- lib/src/lib.rs: `QueueDirection`, `QueueClass`, `QueueType`; lib/src/memory.rs: `MemoryType`.

pub mod Laws
use v4l2r.Base.{ℕ, ◌≡◌, refl, Bool, true, false, List, [], ◌∷◌, some}
use v4l2r.Types.Enumn.{CEnum, find_value}

pub data QueueDirection : Type 0 where
  output capture : QueueDirection

pub data QueueClass : Type 0 where
  video vbi sliced_vbi overlay video_mplane sdr meta : QueueClass

pub data QueueType : Type 0 where
  video_capture video_output video_overlay vbi_capture vbi_output : QueueType
  sliced_vbi_capture sliced_vbi_output video_output_overlay : QueueType
  video_capture_mplane video_output_mplane : QueueType
  sdr_capture sdr_output meta_capture meta_output : QueueType

-- The discriminants are those of lib/src/bindings/videodev2_64.rs, lines 8516 to 8529.
abbrev pub queue_type_u32 : QueueType → ℕ
queue_type_u32 video_capture = 1
queue_type_u32 video_output = 2
queue_type_u32 video_overlay = 3
queue_type_u32 vbi_capture = 4
queue_type_u32 vbi_output = 5
queue_type_u32 sliced_vbi_capture = 6
queue_type_u32 sliced_vbi_output = 7
queue_type_u32 video_output_overlay = 8
queue_type_u32 video_capture_mplane = 9
queue_type_u32 video_output_mplane = 10
queue_type_u32 sdr_capture = 11
queue_type_u32 sdr_output = 12
queue_type_u32 meta_capture = 13
queue_type_u32 meta_output = 14

abbrev pub queue_types : List QueueType
queue_types =
    video_capture ∷ video_output ∷ video_overlay ∷ vbi_capture ∷ vbi_output ∷ sliced_vbi_capture
    ∷ sliced_vbi_output ∷ video_output_overlay ∷ video_capture_mplane ∷ video_output_mplane
    ∷ sdr_capture ∷ sdr_output ∷ meta_capture ∷ meta_output ∷ []

pub queue_type_found :
    (q : QueueType) → find_value queue_type_u32 queue_types (queue_type_u32 q) ≡ some q
unfolding find_value
queue_type_found video_capture = refl
queue_type_found video_output = refl
queue_type_found video_overlay = refl
queue_type_found vbi_capture = refl
queue_type_found vbi_output = refl
queue_type_found sliced_vbi_capture = refl
queue_type_found sliced_vbi_output = refl
queue_type_found video_output_overlay = refl
queue_type_found video_capture_mplane = refl
queue_type_found video_output_mplane = refl
queue_type_found sdr_capture = refl
queue_type_found sdr_output = refl
queue_type_found meta_capture = refl
queue_type_found meta_output = refl

instance abbrev pub queue_type_enum : CEnum QueueType
queue_type_enum = record {
  to_u32 = queue_type_u32;
  variants = queue_types;
  found = queue_type_found;
}

-- `QueueType::from_dir_and_class`.
unfoldable pub from_dir_and_class : QueueDirection → QueueClass → QueueType
from_dir_and_class capture video = video_capture
from_dir_and_class output video = video_output
from_dir_and_class capture overlay = video_overlay
from_dir_and_class output overlay = video_output_overlay
from_dir_and_class capture vbi = vbi_capture
from_dir_and_class output vbi = vbi_output
from_dir_and_class capture sliced_vbi = sliced_vbi_capture
from_dir_and_class output sliced_vbi = sliced_vbi_output
from_dir_and_class capture video_mplane = video_capture_mplane
from_dir_and_class output video_mplane = video_output_mplane
from_dir_and_class capture sdr = sdr_capture
from_dir_and_class output sdr = sdr_output
from_dir_and_class capture meta = meta_capture
from_dir_and_class output meta = meta_output

-- `QueueType::is_multiplanar`.
abbrev pub is_multiplanar : QueueType → Bool
is_multiplanar video_capture_mplane = true
is_multiplanar video_output_mplane = true
is_multiplanar _ = false

-- `QueueType::direction`.
unfoldable pub direction : QueueType → QueueDirection
direction video_output = output
direction video_output_mplane = output
direction video_overlay = output
direction video_output_overlay = output
direction vbi_output = output
direction sliced_vbi_output = output
direction sdr_output = output
direction meta_output = output
direction video_capture = capture
direction vbi_capture = capture
direction sliced_vbi_capture = capture
direction video_capture_mplane = capture
direction sdr_capture = capture
direction meta_capture = capture

-- `QueueType::class`.
unfoldable pub class : QueueType → QueueClass
class video_capture = video
class video_output = video
class video_overlay = overlay
class video_output_overlay = overlay
class vbi_capture = vbi
class vbi_output = vbi
class sliced_vbi_capture = sliced_vbi
class sliced_vbi_output = sliced_vbi
class video_capture_mplane = video_mplane
class video_output_mplane = video_mplane
class sdr_capture = sdr
class sdr_output = sdr
class meta_capture = meta
class meta_output = meta

pub data MemoryType : Type 0 where
  mmap user_ptr memory_overlay dma_buf : MemoryType

-- The discriminants are those of lib/src/bindings/videodev2_64.rs, lines 8538 to 8541.
abbrev pub memory_type_u32 : MemoryType → ℕ
memory_type_u32 mmap = 1
memory_type_u32 user_ptr = 2
memory_type_u32 memory_overlay = 3
memory_type_u32 dma_buf = 4

abbrev pub memory_types : List MemoryType
memory_types = mmap ∷ user_ptr ∷ memory_overlay ∷ dma_buf ∷ []

pub memory_type_found :
    (q : MemoryType) → find_value memory_type_u32 memory_types (memory_type_u32 q) ≡ some q
unfolding find_value
memory_type_found mmap = refl
memory_type_found user_ptr = refl
memory_type_found memory_overlay = refl
memory_type_found dma_buf = refl

instance abbrev pub memory_type_enum : CEnum MemoryType
memory_type_enum = record {
  to_u32 = memory_type_u32;
  variants = memory_types;
  found = memory_type_found;
}
