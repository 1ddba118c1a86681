-- ===== src/Tracker/Coalesce.antt =====
-- `coalesce_lost_segments` keeps the covered offsets and leaves no two segments that touch.
use cfdp_py.Base.{
  ℕ, suc, ◌≤◌, ◌<◌, ◌≡◌, refl, ap, ◌∙◌, ◌||◌, List, [], ◌∷◌, ◌++◌, append_assoc, arith, ◌==◌,
  if◌then◌else◌, Bool-cases, inl, inr, ==_refl,
}
use cfdp_py.Tracker.{
  Segment, LostSegmentTracker, update, dict_from, merge_loop, coalesce, coalesce_lost_segments,
}
use cfdp_py.Tracker.Order.{Increasing, Ordered, Ordered-Increasing, dict_from-of-Increasing}
use cfdp_py.Tracker.Cover.{in_segment, covers}
use cfdp_py.Tracker.Add.{IsDisjoint}

-- What the loop adds to `merged`, from the current segment [a, b) on.
fuse : ℕ → ℕ → List Segment → List Segment
fuse a b [] = (a, b) ∷ []
fuse a b ((s, e) ∷ r) = if s == b then fuse a e r else (a, b) ∷ fuse s e r

merge_loop-fuse :
    (merged : List Segment) (a b : ℕ) (segs : List Segment)
    → merge_loop merged a b segs ≡ merged ++ fuse a b segs
unfolding merge_loop fuse
merge_loop-fuse merged a b [] = refl
merge_loop-fuse merged a b ((s, e) ∷ r) = ground (
  arith,
  merge_loop-fuse merged a e r,
  merge_loop-fuse (merged ++ (a, b) ∷ []) s e r,
  append_assoc merged ((a, b) ∷ []) (fuse s e r),
)

-- The first fused segment starts where the current one does.
fuse_head :
    (a b : ℕ) (segs : List Segment)
    → (v : ℕ) × (rest : List Segment) × (fuse a b segs ≡ (a, v) ∷ rest)
unfolding fuse
fuse_head a b [] = (b, [], refl)
fuse_head a b ((s, e) ∷ r) = elim (Bool-cases (s == b)) [
  | inl t ↦ let (v, rest, p) = fuse_head a e r in (v, rest, rw t p)
  | inr t ↦ (b, fuse s e r, rw t)
]

fuse-Ordered :
    (lo a b : ℕ) (segs : List Segment)
    → lo ≤ a
    → a < b
    → Ordered b segs
    → Ordered lo (fuse a b segs)
unfolding fuse
fuse-Ordered lo a b [] h n o = (h, n, tt)
fuse-Ordered lo a b ((s, e) ∷ r) h n o =
    ground (arith, fuse-Ordered lo a e r h, fuse-Ordered b s e r)

covers-fuse :
    (a b x : ℕ) (segs : List Segment)
    → a < b
    → Ordered b segs
    → covers (fuse a b segs) x ≡ (in_segment x a b || covers segs x)
unfolding fuse
covers-fuse a b x [] n o = refl
covers-fuse a b x ((s, e) ∷ r) n o = ground (arith, covers-fuse a e x r, covers-fuse s e x r)

-- Every segment starts after a gap; `b` is the end of the one before.
abbrev pub Gapped : ℕ → List Segment → Type 0
Gapped b [] = Unit {0}
Gapped b ((s, e) ∷ r) = (b < s) × Gapped e r

-- No segment begins where the one before ends.
abbrev pub IsGapped : List Segment → Type 0
IsGapped [] = Unit {0}
IsGapped ((s, e) ∷ r) = Gapped e r

fuse-Gapped :
    (lo a b : ℕ) (segs : List Segment) → lo < a → a < b → Ordered b segs → Gapped lo (fuse a b segs)
unfolding fuse
fuse-Gapped lo a b [] h n o = (h, tt)
fuse-Gapped lo a b ((s, e) ∷ r) h n o = ground (arith, fuse-Gapped lo a e r h, fuse-Gapped b s e r)

fuse-IsGapped : (a b : ℕ) (segs : List Segment) → a < b → Ordered b segs → IsGapped (fuse a b segs)
unfolding fuse
fuse-IsGapped a b [] n o = tt
fuse-IsGapped a b ((s, e) ∷ r) n o = ground (arith, fuse-IsGapped a e r, fuse-Gapped b s e r)

-- The loop meets the first segment twice, and the dictionary forgets its first copy.
dict_from-first :
    (lo a b v : ℕ) (rest : List Segment)
    → Increasing lo ((a, v) ∷ rest)
    → dict_from ((a, b) ∷ []) ((a, v) ∷ rest) ≡ (a, v) ∷ rest
unfolding dict_from update
dict_from-first lo a b v rest i =
    rw (==_refl a) (dict_from-of-Increasing (suc a) ((a, v) ∷ []) rest (omega arith, tt) i.1)

coalesce-fuse :
    (lo a b : ℕ) (y : Segment) (ys : List Segment)
    → Ordered lo ((a, b) ∷ y ∷ ys)
    → coalesce ((a, b) ∷ y ∷ ys) ≡ fuse a b (y ∷ ys)
coalesce-fuse lo a b y ys o =
    let (v, rest, p) = fuse_head a b (y ∷ ys) in
    twice
    ∙ rw p (dict_from-first lo a b v rest (Ordered-Increasing lo ((a, v) ∷ rest) (rw p at ordered)))
  where
    ordered : Ordered lo (fuse a b (y ∷ ys))
    ordered = fuse-Ordered lo a b (y ∷ ys) o.0 o.1 o.2

    doubled : merge_loop [] a b ((a, b) ∷ y ∷ ys) ≡ (a, b) ∷ fuse a b (y ∷ ys)
    doubled = merge_loop-fuse [] a b ((a, b) ∷ y ∷ ys) ∙ unfold fuse in ground arith

    twice : coalesce ((a, b) ∷ y ∷ ys) ≡ dict_from ((a, b) ∷ []) (fuse a b (y ∷ ys))
    twice = unfold coalesce in ap (dict_from []) doubled ∙ unfold dict_from update in refl

-- A coalesced disjoint tracker covers the same offsets, is disjoint, and no segment of it begins
-- where the one before ends.
pub coalesce_lost_segments_lem :
    (t : LostSegmentTracker)
    → IsDisjoint t
    → IsDisjoint (coalesce_lost_segments t)
      × IsGapped (coalesce_lost_segments t).lost_segments
      × ((x : ℕ) → covers (coalesce_lost_segments t).lost_segments x ≡ covers t.lost_segments x)
unfolding coalesce_lost_segments
coalesce_lost_segments_lem t d = of_items t.lost_segments d
  where
    of_items :
        (segs : List Segment)
        → Ordered 0 segs
        → Ordered 0 (coalesce segs)
          × IsGapped (coalesce segs)
          × ((x : ℕ) → covers (coalesce segs) x ≡ covers segs x)
    of_items [] o = unfold coalesce in (o, tt, λ x. refl)
    of_items ((s, e) ∷ []) o = unfold coalesce in (o, tt, λ x. refl)
    of_items ((s, e) ∷ y ∷ ys) o = rw (coalesce-fuse 0 s e y ys o) (
      fuse-Ordered 0 s e (y ∷ ys) o.0 o.1 o.2,
      fuse-IsGapped s e (y ∷ ys) o.1 o.2,
      λ x. covers-fuse s e x (y ∷ ys) o.1 o.2,
    )
