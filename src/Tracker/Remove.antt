-- ===== src/Tracker/Remove.antt =====
-- `remove_lost_segment` takes exactly the offsets of the segment out, where it does anything.
use cfdp_py.Base.{
  Bool-cases, ℕ, ◌≤◌, ◌<◌, ◌≡◌, refl, sym, ◌∙◌, inl, inr, Bool, true, false, not, ◌&&◌, Option,
  none, some, List, [], ◌∷◌, arith, ltb, ◌==◌, if◌then◌else◌, Option-cases,
}
use cfdp_py.Tracker.{
  Segment, LostSegmentTracker, Removal, exceeds, unchanged, changed, update, get, pop,
  remove_at_key, remove_inside, removal, sort_removal, remove_lost_segment,
}
use cfdp_py.Tracker.Order.{
  Ordered, Ordered-Increasing, sorted-update, sorted-of-Increasing, pop-Ordered,
}
use cfdp_py.Tracker.Cover.{in_segment, covers}
use cfdp_py.Tracker.Add.{IsDisjoint}
use cfdp_py.Tracker.Cut.{
  cut, holder, cut-Ordered, covers-cut, get-holder, pop-cut, place-pop-cut, update-Increasing,
  update-cut, place-update-cut, holder-inside,
}

-- The item that the loop stops at.
stop_at : ℕ → List Segment → Option Segment
stop_at a [] = none
stop_at a ((s, e) ∷ r) = if ltb s a && ltb a e then some (s, e) else stop_at a r

inside_branch : ℕ → ℕ → Option Segment → List Segment → Removal
inside_branch a b none segs = unchanged
inside_branch a b (some (s, e)) segs =
    if ltb e b
    then exceeds
    else if b == e
    then changed (update s a segs)
    else changed (update b e (update s a segs))

remove_inside-stop_at :
    (a b : ℕ) (items segs : List Segment)
    → remove_inside a b items segs ≡ inside_branch a b (stop_at a items) segs
unfolding remove_inside stop_at inside_branch
remove_inside-stop_at a b [] segs = refl
remove_inside-stop_at a b ((s, e) ∷ items) segs =
    ground (arith, remove_inside-stop_at a b items segs)

stop_at-some :
    (lo a s e : ℕ) (segs : List Segment)
    → Ordered lo segs
    → stop_at a segs ≡ some (s, e)
    → (get s segs ≡ some e) × (s < a) × (a < e) × (lo ≤ s)
unfolding stop_at get
stop_at-some lo a s e [] o h = (cc, cc, cc, cc)
stop_at-some lo a s e ((s', e') ∷ r) o h = ground (arith, stop_at-some e' a s e r o.2)

stop_at-none :
    (lo a : ℕ) (segs : List Segment)
    → Ordered lo segs
    → get a segs ≡ none
    → stop_at a segs ≡ none
    → holder a segs ≡ none
unfolding stop_at get holder
stop_at-none lo a [] o h k = refl
stop_at-none lo a ((s, e) ∷ r) o h k = ground (arith, stop_at-none e a r o.2)

-- What the removal of a non-empty [a, b) does, from the end of the segment in which `a` lies.
unfoldable pub cut_out : ℕ → ℕ → Option ℕ → LostSegmentTracker → Option (LostSegmentTracker × Bool)
cut_out a b none t = some (t, false)
cut_out a b (some end) t =
    if ltb end b then none else some (record { lost_segments = cut a b t.lost_segments }, true)

module _ (a b : ℕ) (t : LostSegmentTracker) (d : IsDisjoint t) (n : a < b) where
  at_key :
      (end : ℕ)
      → get a t.lost_segments ≡ some end
      → sort_removal (remove_at_key a b end t.lost_segments) t ≡ cut_out a b (some end) t
  unfolding cut_out
  at_key end h = ground (
    arith,
    sorted-of-Increasing 0 (pop a t.lost_segments)
        (Ordered-Increasing 0 _ (pop-Ordered 0 a t.lost_segments d)),
    pop-cut 0 a b t.lost_segments d,
    sorted-update 0 b end (pop a t.lost_segments)
        (Ordered-Increasing 0 _ (pop-Ordered 0 a t.lost_segments d)),
    place-pop-cut 0 a b end t.lost_segments d h n,
  )

  inside_segment :
      (s e : ℕ)
      → (get s t.lost_segments ≡ some e) × (s < a) × (a < e)
      → sort_removal (inside_branch a b (some (s, e)) t.lost_segments) t ≡ cut_out a b (some e) t
  unfolding cut_out inside_branch
  inside_segment s e h = ground (
    arith,
    sorted-of-Increasing 0 (update s a t.lost_segments)
        (update-Increasing 0 s a e t.lost_segments (Ordered-Increasing 0 t.lost_segments d) h.0),
    update-cut 0 a s b t.lost_segments d,
    sorted-update 0 b e (update s a t.lost_segments)
        (update-Increasing 0 s a e t.lost_segments (Ordered-Increasing 0 t.lost_segments d) h.0),
    place-update-cut 0 a s b e t.lost_segments d h.0 h.1 n,
  )

  no_key :
      get a t.lost_segments ≡ none
      → sort_removal (remove_inside a b t.lost_segments t.lost_segments) t
        ≡ cut_out a b (holder a t.lost_segments) t
  no_key h =
      rw (remove_inside-stop_at a b t.lost_segments t.lost_segments)
        (elim (Option-cases (stop_at a t.lost_segments)) [
          | inl e ↦
              rw (e, stop_at-none 0 a t.lost_segments d h e) (unfold inside_branch cut_out in refl)
          | inr ((s, end), e) ↦
              let f = stop_at-some 0 a s end t.lost_segments d e in
              rw (e, holder-inside 0 a s end t.lost_segments d f.0 f.1 f.2)
                (inside_segment s end (f.0, f.1, f.2))
        ])

  -- The removal of a non-empty segment.
  remove_lost_segment-cut_out :
      remove_lost_segment (a, b) t ≡ cut_out a b (holder a t.lost_segments) t
  unfolding remove_lost_segment removal
  remove_lost_segment-cut_out = elim (Option-cases (get a t.lost_segments)) [
    | inl e ↦ rw (differ, e) (no_key e)
    | inr (end, e) ↦ rw (differ, e, get-holder 0 a end t.lost_segments d e) (at_key end e)
  ]
    where
      differ : (b == a) ≡ false
      differ = ground arith

  -- Where the call on a disjoint tracker returns True, the tracker stays disjoint, and the covered
  -- offsets are those of before that do not lie in [a, b).
  pub remove_lost_segment_lem :
      (u : LostSegmentTracker)
      → remove_lost_segment (a, b) t ≡ some (u, true)
      → IsDisjoint u
        × ((x : ℕ)
            → covers u.lost_segments x ≡ (covers t.lost_segments x && not (in_segment x a b)))
  remove_lost_segment_lem u h =
      of_holder (holder a t.lost_segments) refl (sym remove_lost_segment-cut_out ∙ h)
    where
      of_holder :
          (o : Option ℕ)
          → holder a t.lost_segments ≡ o
          → cut_out a b o t ≡ some (u, true)
          → Ordered 0 u.lost_segments
            × ((x : ℕ)
                → covers u.lost_segments x ≡ (covers t.lost_segments x && not (in_segment x a b)))
      of_holder none p q = unfold cut_out in (ground arith, λ x. ground arith)
      of_holder (some end) p q =
          unfold cut_out in
          (
            ground (arith, cut-Ordered 0 a b 0 t.lost_segments d n),
            λ x. ground (arith, covers-cut 0 a b end x t.lost_segments d n p),
          )

-- What the removal of [a, b) does, an empty one included.
unfoldable pub removal_of :
    ℕ → ℕ → Option ℕ → LostSegmentTracker → Option (LostSegmentTracker × Bool)
unfolding cut_out
removal_of a b end t = if b == a then some (t, false) else cut_out a b end t

-- On a disjoint tracker the removal of [a, b) is decided by the segment in which `a` lies. An empty
-- [a, b) changes nothing, and so does one whose start lies in no segment; both return False. Where
-- [a, b) goes past the end of that segment the call raises, and otherwise [a, b) is cut out, and the
-- call returns True.
pub remove_lost_segment-removal_of :
    (a b : ℕ) (t : LostSegmentTracker)
    → IsDisjoint t
    → a ≤ b
    → remove_lost_segment (a, b) t ≡ removal_of a b (holder a t.lost_segments) t
unfolding removal_of
remove_lost_segment-removal_of a b t d n = elim (Bool-cases (b == a)) [
  | inl e ↦ unfold remove_lost_segment removal in ground (arith, e)
  | inr e ↦ ground (arith, e, remove_lost_segment-cut_out a b t d (ground (arith, e)))
]
