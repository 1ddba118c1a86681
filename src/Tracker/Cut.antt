-- ===== src/Tracker/Cut.antt =====
-- The specification of a removal, the cut, and its laws on ordered segments.
use cfdp_py.Base.{
  ℕ, suc, ◌≤◌, ◌<◌, ◌≡◌, refl, not, ◌&&◌, Option, none, some, List, [], ◌∷◌, arith, ltb,
  if◌then◌else◌,
}
use cfdp_py.Tracker.{Segment, update, get, pop}
use cfdp_py.Tracker.Order.{Increasing, Ordered, Ordered-mono, place}
use cfdp_py.Tracker.Cover.{in_segment, covers, covers-below_Ordered}

-- The specification: cut [a, b) out of the segment in which `a` lies.
unfoldable pub cut : ℕ → ℕ → List Segment → List Segment
cut a b [] = []
cut a b ((s, e) ∷ r) =
    if in_segment a s e
    then if ltb s a && ltb b e
      then (s, a) ∷ (b, e) ∷ r
      else if ltb s a
      then (s, a) ∷ r
      else if ltb b e
      then (b, e) ∷ r
      else r
    else (s, e) ∷ cut a b r

-- The end of the segment in which `a` lies.
unfoldable pub holder : ℕ → List Segment → Option ℕ
holder a [] = none
holder a ((s, e) ∷ r) = if in_segment a s e then some e else holder a r

pub cut-Ordered :
    (lo a b e : ℕ) (segs : List Segment) → Ordered lo segs → a < b → Ordered lo (cut a b segs)
unfolding cut
cut-Ordered lo a b e [] o n = tt
cut-Ordered lo a b e ((s, e') ∷ r) o n = ground (
  arith,
  cut-Ordered e' a b e r o.2,
  Ordered-mono {lo = lo} {hi = e'} r,
  Ordered-mono {lo = a} {hi = e'} r,
)

pub holder-below :
    (lo a : ℕ) (segs : List Segment) → Ordered lo segs → a < lo → holder a segs ≡ none
unfolding holder
holder-below lo a [] o h = refl
holder-below lo a ((s, e) ∷ r) o h = ground (arith, holder-below e a r o.2)

pub covers-cut :
    (lo a b end x : ℕ) (segs : List Segment)
    → Ordered lo segs
    → a < b
    → holder a segs ≡ some end
    → b ≤ end
    → covers (cut a b segs) x ≡ (covers segs x && not (in_segment x a b))
unfolding cut holder
covers-cut lo a b end x [] o n h k = refl
covers-cut lo a b end x ((s, e) ∷ r) o n h k =
    ground (
      arith,
      covers-cut e a b end x r o.2 n,
      covers-below_Ordered e x r o.2,
      holder-below e a r o.2,
    )

pub get-below : (lo a : ℕ) (segs : List Segment) → Ordered lo segs → a < lo → get a segs ≡ none
unfolding get
get-below lo a [] o h = refl
get-below lo a ((s, e) ∷ r) o h = ground (arith, get-below e a r o.2)

pub get-holder :
    (lo a end : ℕ) (segs : List Segment)
    → Ordered lo segs
    → get a segs ≡ some end
    → holder a segs ≡ some end
unfolding get holder
get-holder lo a end [] o h = cc
get-holder lo a end ((s, e) ∷ r) o h = ground (arith, get-holder e a end r o.2, get-below e a r o.2)

pub pop-cut :
    (lo a b : ℕ) (segs : List Segment)
    → Ordered lo segs
    → get a segs ≡ some b
    → pop a segs ≡ cut a b segs
unfolding pop cut get
pop-cut lo a b [] o h = refl
pop-cut lo a b ((s, e) ∷ r) o h = ground (arith, pop-cut e a b r o.2, get-below e a r o.2)

pub place_front :
    (k v lo : ℕ) (segs : List Segment) → Ordered lo segs → k < lo → place k v segs ≡ (k, v) ∷ segs
unfolding place
place_front k v lo [] o h = refl
place_front k v lo ((s, e) ∷ r) o h = ground arith

pub place-pop-cut :
    (lo a b end : ℕ) (segs : List Segment)
    → Ordered lo segs
    → get a segs ≡ some end
    → a < b
    → b < end
    → place b end (pop a segs) ≡ cut a b segs
unfolding pop cut get place
place-pop-cut lo a b end [] o h n k = cc
place-pop-cut lo a b end ((s, e) ∷ r) o h n k =
    ground (arith, place-pop-cut e a b end r o.2, get-below e a r o.2, place_front b end e r o.2)

pub update-Increasing :
    (lo k v end : ℕ) (segs : List Segment)
    → Increasing lo segs
    → get k segs ≡ some end
    → Increasing lo (update k v segs)
unfolding update get
update-Increasing lo k v end [] i h = cc
update-Increasing lo k v end ((s, e) ∷ r) i h =
    ground (arith, update-Increasing (suc s) k v end r i.1)

pub update-cut :
    (lo a s b : ℕ) (segs : List Segment)
    → Ordered lo segs
    → get s segs ≡ some b
    → s < a
    → a < b
    → update s a segs ≡ cut a b segs
unfolding update cut get
update-cut lo a s b [] o h n k = cc
update-cut lo a s b ((s', e) ∷ r) o h n k =
    ground (arith, update-cut e a s b r o.2, get-below e s r o.2)

pub place-update-cut :
    (lo a s b end : ℕ) (segs : List Segment)
    → Ordered lo segs
    → get s segs ≡ some end
    → s < a
    → a < b
    → b < end
    → place b end (update s a segs) ≡ cut a b segs
unfolding update cut get place
place-update-cut lo a s b end [] o h n m k = cc
place-update-cut lo a s b end ((s', e) ∷ r) o h n m k =
    ground
      (arith, place-update-cut e a s b end r o.2, get-below e s r o.2, place_front b end e r o.2)

pub holder-inside :
    (lo a s end : ℕ) (segs : List Segment)
    → Ordered lo segs
    → get s segs ≡ some end
    → s < a
    → a < end
    → holder a segs ≡ some end
unfolding get holder
holder-inside lo a s end [] o h n m = cc
holder-inside lo a s end ((s', e) ∷ r) o h n m =
    ground (arith, holder-inside e a s end r o.2, get-below e s r o.2)
