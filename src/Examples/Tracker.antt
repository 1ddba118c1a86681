-- ===== src/Examples/Tracker.antt =====
-- The theorems of the tracker at a file of which two parts are missing.
use cfdp_py.Base.{ℕ, ◌≡◌, refl, inl, true, not, ◌&&◌, ◌||◌, some, [], ◌∷◌, arith}
use cfdp_py.Tracker.{
  LostSegmentTracker, add_lost_segment, coalesce_lost_segments, remove_lost_segment, pop, sorted,
  insert_sorted, update, removal, get, remove_inside,
}
use cfdp_py.Tracker.Cover.{covers, in_segment}
use cfdp_py.Tracker.Cut.{holder}
use cfdp_py.Tracker.Add.{IsSorted, IsDisjoint, add_lost_segment_lem, add_lost_segment-IsDisjoint}
use cfdp_py.Tracker.Coalesce.{IsGapped, coalesce_lost_segments_lem}
use cfdp_py.Tracker.Remove.{removal_of, remove_lost_segment-removal_of, remove_lost_segment_lem}

abbrev two_missing : LostSegmentTracker
two_missing = record { lost_segments = (10, 20) ∷ (20, 40) ∷ [] }

two_missing-IsSorted : IsSorted two_missing
two_missing-IsSorted = (omega arith, (omega arith, tt))

two_missing-IsDisjoint : IsDisjoint two_missing
two_missing-IsDisjoint = (omega arith, omega arith, (omega arith, omega arith, tt))

add_lost_segment_example :
    IsSorted (add_lost_segment (50, 60) two_missing)
    × ((x : ℕ)
        → covers (add_lost_segment (50, 60) two_missing).lost_segments x
          ≡ (in_segment x 50 60 || covers (pop 50 two_missing.lost_segments) x))
add_lost_segment_example = add_lost_segment_lem 50 60 two_missing two_missing-IsSorted

add-IsDisjoint_example : IsDisjoint (add_lost_segment (50, 60) two_missing)
add-IsDisjoint_example =
    add_lost_segment-IsDisjoint 50 60 two_missing two_missing-IsDisjoint (omega arith)
      (inl (omega arith), (inl (omega arith), tt))

coalesce_example :
    IsDisjoint (coalesce_lost_segments two_missing)
    × IsGapped (coalesce_lost_segments two_missing).lost_segments
    × ((x : ℕ)
        → covers (coalesce_lost_segments two_missing).lost_segments x
          ≡ covers two_missing.lost_segments x)
coalesce_example = coalesce_lost_segments_lem two_missing two_missing-IsDisjoint

removal_of_example :
    remove_lost_segment (25, 30) two_missing
    ≡ removal_of 25 30 (holder 25 two_missing.lost_segments) two_missing
removal_of_example =
    remove_lost_segment-removal_of 25 30 two_missing two_missing-IsDisjoint (omega arith)

abbrev three_missing : LostSegmentTracker
three_missing = record { lost_segments = (10, 20) ∷ (20, 25) ∷ (30, 40) ∷ [] }

removes_middle : remove_lost_segment (25, 30) two_missing ≡ some (three_missing, true)
unfolding remove_lost_segment removal get remove_inside sorted insert_sorted update
removes_middle = refl

remove_lost_segment_example :
    IsDisjoint three_missing
    × ((x : ℕ)
        → covers three_missing.lost_segments x
          ≡ (covers two_missing.lost_segments x && not (in_segment x 25 30)))
remove_lost_segment_example =
    remove_lost_segment_lem 25 30 two_missing two_missing-IsDisjoint (omega arith) three_missing
      removes_middle
