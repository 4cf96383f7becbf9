-- ===== src/Types/QueueTypes/Laws.antt =====
-- lib/src/lib.rs: how `from_dir_and_class`, `direction` and `class` fit together.
use v4l2r.Base.{◌≡◌, refl, ◌↔◌, ◌≢◌, arith}
use v4l2r.Types.QueueTypes.{
  QueueType, QueueClass, QueueDirection, video_overlay, overlay, capture, output,
  from_dir_and_class, direction, class,
}

-- The class of a queue type built from a direction and a class is that class, for each of the
-- fourteen pairs.
pub class-from_dir_and_class :
    (d : QueueDirection) (c : QueueClass) → class (from_dir_and_class d c) ≡ c
unfolding class from_dir_and_class
class-from_dir_and_class d c = ground arith

-- Splitting a queue type into its direction and class and putting these together again gives the
-- queue type back exactly when it is not `VideoOverlay`; for `VideoOverlay` the code's `direction`
-- answers `Output`, so another type comes back.
pub from_dir_and_class-direction :
    (q : QueueType) → (from_dir_and_class (direction q) (class q) ≡ q) ↔ (q ≢ video_overlay)
unfolding class direction from_dir_and_class
from_dir_and_class-direction q = (λ h e. ground arith, λ h. ground arith)

-- The direction of a queue type built from a direction and a class is that direction exactly when
-- the pair is not (`Capture`, `VideoOverlay`).
pub direction-from_dir_and_class :
    (d : QueueDirection) (c : QueueClass)
    → (direction (from_dir_and_class d c) ≡ d) ↔ ((d ≡ capture) → c ≢ overlay)
unfolding direction from_dir_and_class
direction-from_dir_and_class output c = (λ h e e'. cc, λ h. ground arith)
direction-from_dir_and_class capture overlay = (λ h e e'. cc, λ h. absurd (h refl refl))
direction-from_dir_and_class capture c = (λ h e e'. cc, λ h. refl)
