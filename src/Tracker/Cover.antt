-- ===== src/Tracker/Cover.antt =====
-- The abstract view of the tracker: the set of file offsets that its segments cover.
use cfdp_py.Base.{ℕ, suc, ◌<◌, ◌≡◌, refl, Bool, false, ◌&&◌, ◌||◌, List, [], ◌∷◌, arith, ltb, leb}
use cfdp_py.Tracker.{Segment, pop}
use cfdp_py.Tracker.Order.{Increasing, Ordered, place}

abbrev pub in_segment : ℕ → ℕ → ℕ → Bool
in_segment x s e = leb s x && ltb x e

abbrev pub covers : List Segment → ℕ → Bool
covers [] x = false
covers ((s, e) ∷ r) x = in_segment x s e || covers r x

-- Nothing below the first start is covered.
pub covers-below :
    (lo x : ℕ) (segs : List Segment) → Increasing lo segs → x < lo → covers segs x ≡ false
covers-below lo x [] i h = refl
covers-below lo x ((s, e) ∷ r) i h = ground (arith, covers-below (suc s) x r i.1)

pub covers-below_Ordered :
    (lo x : ℕ) (segs : List Segment) → Ordered lo segs → x < lo → covers segs x ≡ false
covers-below_Ordered lo x [] i h = refl
covers-below_Ordered lo x ((s, e) ∷ r) i h = ground (arith, covers-below_Ordered e x r i.2)

pop-below : (lo k : ℕ) (segs : List Segment) → Increasing lo segs → k < lo → pop k segs ≡ segs
unfolding pop
pop-below lo k [] i h = refl
pop-below lo k ((s, e) ∷ r) i h = ground (arith, pop-below (suc s) k r i.1)

-- Placing a segment adds its offsets, and drops those of the old segment of the same start.
pub covers-place :
    (lo k v x : ℕ) (segs : List Segment)
    → Increasing lo segs
    → covers (place k v segs) x ≡ (in_segment x k v || covers (pop k segs) x)
unfolding place pop
covers-place lo k v x [] i = refl
covers-place lo k v x ((j, w) ∷ r) i =
    ground (arith, covers-place (suc j) k v x r i.1, pop-below (suc j) k r i.1)
