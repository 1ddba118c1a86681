-- ===== src/Tracker.antt =====
-- `LostSegmentTracker` of src/cfdppy/handler/dest.py. The dictionary `lost_segments` is the list of its
-- items in Python's order, which is the order of insertion; `update` keeps the place of a key.
pub mod Order
pub mod Cover
pub mod Add
pub mod Coalesce
pub mod Cut
pub mod Remove
pub mod Steps
use cfdp_py.Base.{
  ℕ, Bool, true, false, ◌&&◌, ◌||◌, Option, none, some, List, [], ◌∷◌, ◌++◌, ltb, leb, ◌==◌,
  if◌then◌else◌, length,
}

abbrev pub Segment : Type 0
Segment = ℕ × ℕ

pub record LostSegmentTracker : Type 0 where
  pub lost_segments : List Segment

abbrev pub init : LostSegmentTracker
init = record { lost_segments = [] }

-- `dict.update({k: v})`.
unfoldable pub update : ℕ → ℕ → List Segment → List Segment
update k v [] = (k, v) ∷ []
update k v ((j, w) ∷ segs) = if j == k then (k, v) ∷ segs else (j, w) ∷ update k v segs

-- `dict.get(k)`.
unfoldable pub get : ℕ → List Segment → Option ℕ
get k [] = none
get k ((j, w) ∷ segs) = if j == k then some w else get k segs

-- `dict.pop(k)` of a key that is there.
unfoldable pub pop : ℕ → List Segment → List Segment
pop k [] = []
pop k ((j, w) ∷ segs) = if j == k then segs else (j, w) ∷ pop k segs

-- `dict(pairs)`: a later pair of the same key overrides the value.
unfoldable pub dict_from : List Segment → List Segment → List Segment
dict_from acc [] = acc
dict_from acc ((k, v) ∷ rest) = dict_from (update k v acc) rest

-- The order of pairs, and `sorted`.
abbrev pub pair_leb : Segment → Segment → Bool
pair_leb (a, b) (c, d) = ltb a c || (a == c && leb b d)

unfoldable pub insert_sorted : Segment → List Segment → List Segment
insert_sorted x [] = x ∷ []
insert_sorted x (y ∷ ys) = if pair_leb x y then x ∷ y ∷ ys else y ∷ insert_sorted x ys

unfoldable pub sorted : List Segment → List Segment
sorted [] = []
sorted (x ∷ xs) = insert_sorted x (sorted xs)

unfoldable pub num_lost_segments : LostSegmentTracker → ℕ
num_lost_segments t = length t.lost_segments

unfoldable pub reset : LostSegmentTracker → LostSegmentTracker
reset t = record { lost_segments = [] }

unfoldable pub add_lost_segment : Segment → LostSegmentTracker → LostSegmentTracker
add_lost_segment lost_seg t = record {
  lost_segments = sorted (update lost_seg.0 lost_seg.1 t.lost_segments);
}

-- The loop of `coalesce_lost_segments`, with its three variables.
unfoldable pub merge_loop : List Segment → ℕ → ℕ → List Segment → List Segment
merge_loop merged current_start current_end [] = merged ++ (current_start, current_end) ∷ []
merge_loop merged current_start current_end ((seg_start, seg_end) ∷ segs) =
    merge_loop
      (if seg_start == current_end then merged else merged ++ (current_start, current_end) ∷ [])
      (if seg_start == current_end then current_start else seg_start) seg_end segs

unfoldable pub coalesce : List Segment → List Segment
coalesce [] = []
coalesce (x ∷ []) = x ∷ []
coalesce ((s, e) ∷ y ∷ ys) = dict_from [] (merge_loop [] s e ((s, e) ∷ y ∷ ys))

unfoldable pub coalesce_lost_segments : LostSegmentTracker → LostSegmentTracker
coalesce_lost_segments t = record { lost_segments = coalesce t.lost_segments }

-- What a removal does: `exceeds` is the `ValueError`, `unchanged` returns False.
pub data Removal : Type 0 where
  exceeds : Removal
  unchanged : Removal
  changed : List Segment → Removal

-- The branch for a start that is a key, with its end.
abbrev pub remove_at_key : ℕ → ℕ → ℕ → List Segment → Removal
remove_at_key a b end segs =
    if ltb end b
    then exceeds
    else if b == end
    then changed (pop a segs)
    else changed (update b end (pop a segs))

-- The search for a segment that holds the start inside; `items` is the snapshot of the loop.
unfoldable pub remove_inside : ℕ → ℕ → List Segment → List Segment → Removal
remove_inside a b [] segs = unchanged
remove_inside a b ((seg_start, seg_end) ∷ items) segs =
    if ltb seg_start a && ltb a seg_end
    then if ltb seg_end b
      then exceeds
      else if b == seg_end
      then changed (update seg_start a segs)
      else changed (update b seg_end (update seg_start a segs))
    else remove_inside a b items segs

abbrev pub remove_found : ℕ → ℕ → Option ℕ → List Segment → Removal
remove_found a b none segs = remove_inside a b segs segs
remove_found a b (some end) segs = remove_at_key a b end segs

unfoldable pub removal : Segment → List Segment → Removal
unfolding get
removal (a, b) segs = if b == a then unchanged else remove_found a b (get a segs) segs

abbrev pub sort_removal : Removal → LostSegmentTracker → Option (LostSegmentTracker × Bool)
sort_removal exceeds t = none
sort_removal unchanged t = some (t, false)
sort_removal (changed segs) t = some (record { lost_segments = sorted segs }, true)

-- `none` is the `ValueError`, which leaves the tracker as it was.
unfoldable pub remove_lost_segment :
    Segment → LostSegmentTracker → Option (LostSegmentTracker × Bool)
remove_lost_segment segment_to_remove t = sort_removal (removal segment_to_remove t.lost_segments) t
