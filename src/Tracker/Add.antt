-- ===== src/Tracker/Add.antt =====
-- `add_lost_segment` refines the union of sets of offsets.
use cfdp_py.Base.{ℕ, ◌≤◌, ◌<◌, ◌≡◌, ◌⊎◌, ◌||◌, List, [], ◌∷◌, arith}
use cfdp_py.Tracker.{Segment, LostSegmentTracker, pop, add_lost_segment}
use cfdp_py.Tracker.Order.{
  Increasing, Ordered, Ordered-Increasing, place, sorted-update, place-Increasing,
}
use cfdp_py.Tracker.Cover.{in_segment, covers, covers-place}

-- The items of a tracker are in order of their starts.
abbrev pub IsSorted : LostSegmentTracker → Type 0
IsSorted t = Increasing 0 t.lost_segments

-- Its segments moreover are not empty and do not overlap.
abbrev pub IsDisjoint : LostSegmentTracker → Type 0
IsDisjoint t = Ordered 0 t.lost_segments

pub IsDisjoint-IsSorted : (t : LostSegmentTracker) → IsDisjoint t → IsSorted t
IsDisjoint-IsSorted t d = Ordered-Increasing 0 t.lost_segments d

add_lost_segment-place :
    (s e : ℕ) (t : LostSegmentTracker)
    → IsSorted t
    → (add_lost_segment (s, e) t).lost_segments ≡ place s e t.lost_segments
unfolding add_lost_segment
add_lost_segment-place s e t i = sorted-update 0 s e t.lost_segments i

-- Adding a segment to a sorted tracker keeps it sorted, and the covered offsets are those of the
-- segment and of the old segments, less the old segment with the same start, which is replaced.
pub add_lost_segment_lem :
    (s e : ℕ) (t : LostSegmentTracker)
    → IsSorted t
    → IsSorted (add_lost_segment (s, e) t)
      × ((x : ℕ)
          → covers (add_lost_segment (s, e) t).lost_segments x
            ≡ (in_segment x s e || covers (pop s t.lost_segments) x))
add_lost_segment_lem s e t i =
    let p = add_lost_segment-place s e t i in
    (
      rw p (place-Increasing 0 s e t.lost_segments i (omega arith)),
      λ x. rw p (covers-place 0 s e x t.lost_segments i),
    )

-- Every segment lies before [s, e) or after it.
abbrev pub Apart : ℕ → ℕ → List Segment → Type 0
Apart s e [] = Unit {0}
Apart s e ((a, b) ∷ r) = ((b ≤ s) ⊎ (e ≤ a)) × Apart s e r

place-Ordered :
    (lo s e : ℕ) (segs : List Segment)
    → Ordered lo segs
    → lo ≤ s
    → s < e
    → Apart s e segs
    → Ordered lo (place s e segs)
unfolding place
place-Ordered lo s e [] o h n a = (h, n, tt)
place-Ordered lo s e ((j, w) ∷ r) o h n a = ground (arith, place-Ordered w s e r o.2)

-- A segment that is not empty and meets no other one keeps the tracker disjoint.
pub add_lost_segment-IsDisjoint :
    (s e : ℕ) (t : LostSegmentTracker)
    → IsDisjoint t
    → s < e
    → Apart s e t.lost_segments
    → IsDisjoint (add_lost_segment (s, e) t)
add_lost_segment-IsDisjoint s e t d n a =
    rw (add_lost_segment-place s e t (IsDisjoint-IsSorted t d))
      (place-Ordered 0 s e t.lost_segments d (omega arith) n a)
