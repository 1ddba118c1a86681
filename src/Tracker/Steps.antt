-- ===== src/Tracker/Steps.antt =====
-- What one added or removed segment does to a disjoint tracker, offset by offset.
use cfdp_py.Tracker.Remove.{remove_lost_segment_lem}
use cfdp_py.Tracker.Add.{
  IsDisjoint-IsSorted, add_lost_segment_lem, add_lost_segment-IsDisjoint, Apart, IsDisjoint,
}
use cfdp_py.Base.{
  sym, subst, false, ◌≢◌, refl, ap, ◌∙◌, ◌-◌, arith, inl, not, ◌∷◌, ◌&&◌, [], ◌||◌, true, some, ◌<◌,
  ◌≤◌, ◌≡◌, List, Bool, ℕ,
}
use cfdp_py.Tracker.{
  exceeds, unchanged, changed, Removal, Segment, LostSegmentTracker, pop, add_lost_segment,
  remove_lost_segment, removal, sort_removal,
}
use cfdp_py.Tracker.Order.{Ordered}
use cfdp_py.Tracker.Cover.{in_segment, covers}

-- Every covered offset is smaller.
abbrev pub CoversBelow : ℕ → List Segment → Type 0
CoversBelow m segs = (x : ℕ) → covers segs x ≡ true → x < m

last_covered : (s e : ℕ) (r : List Segment) → s < e → covers ((s, e) ∷ r) (e - 1) ≡ true
last_covered s e r h = ground arith

tail_covered : (s e x : ℕ) (r : List Segment) → covers r x ≡ true → covers ((s, e) ∷ r) x ≡ true
tail_covered s e x r h = ground arith

pop-CoversBelow :
    (lo m : ℕ) (segs : List Segment) → Ordered lo segs → CoversBelow m segs → pop m segs ≡ segs
unfolding pop
pop-CoversBelow lo m [] o b = refl
pop-CoversBelow lo m ((s, e) ∷ r) o b = ground (
  arith,
  b (e - 1) (last_covered s e r o.1),
  pop-CoversBelow e m r o.2 (λ x h. b x (tail_covered s e x r h)),
)

Apart-CoversBelow :
    (lo m n : ℕ) (segs : List Segment) → Ordered lo segs → CoversBelow m segs → Apart m n segs
Apart-CoversBelow lo m n [] o b = tt
Apart-CoversBelow lo m n ((s, e) ∷ r) o b = (
  inl (omega (arith, b (e - 1) (last_covered s e r o.1), o.1)),
  Apart-CoversBelow e m n r o.2 (λ x h. b x (tail_covered s e x r h)),
)

-- A segment above everything that is covered is added to the covered offsets.
pub add_above :
    (m n : ℕ) (t : LostSegmentTracker)
    → IsDisjoint t
    → CoversBelow m t.lost_segments
    → m < n
    → IsDisjoint (add_lost_segment (m, n) t)
      × ((x : ℕ)
          → covers (add_lost_segment (m, n) t).lost_segments x
            ≡ (in_segment x m n || covers t.lost_segments x))
add_above m n t d b h = (
  add_lost_segment-IsDisjoint m n t d h (Apart-CoversBelow 0 m n t.lost_segments d b),
  λ x.
      (add_lost_segment_lem m n t (IsDisjoint-IsSorted t d)).1 x
      ∙ ap (λ segs. in_segment x m n || covers segs x) (pop-CoversBelow 0 m t.lost_segments d b),
)

same_if_unchanged :
    (r : Removal) (t u : LostSegmentTracker) → sort_removal r t ≡ some (u, false) → t ≡ u
same_if_unchanged exceeds t u e = cc
same_if_unchanged unchanged t u e = cc
same_if_unchanged (changed segs) t u e = cc

not_empty :
    (a b : ℕ) (t u : LostSegmentTracker) → remove_lost_segment (a, b) t ≡ some (u, true) → a ≢ b
unfolding remove_lost_segment removal
not_empty a b t u e same = ground arith

-- A removal takes out the offsets of the segment, or changes nothing.
pub remove_some :
    (a b : ℕ) (t u : LostSegmentTracker) (done : Bool)
    → IsDisjoint t
    → a ≤ b
    → remove_lost_segment (a, b) t ≡ some (u, done)
    → IsDisjoint u
      × ((x : ℕ)
          → covers u.lost_segments x ≡ (covers t.lost_segments x && not (in_segment x a b && done)))
remove_some a b t u true d h e =
    let (d', c) = remove_lost_segment_lem a b t d (omega (arith, not_empty a b t u e)) u e in
    (d', λ x. c x ∙ ground arith)
remove_some a b t u false d h e =
    let same : t ≡ u =
      unfold remove_lost_segment in same_if_unchanged (removal (a, b) t.lost_segments) t u e in
    (subst IsDisjoint same d, λ x. ap (λ v. covers v.lost_segments x) (sym same) ∙ ground arith)
