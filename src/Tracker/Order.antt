-- ===== src/Tracker/Order.antt =====
-- Orders on the items of the tracker, and the dictionary operations on ordered items.
use cfdp_py.Base.{
  ℕ, suc, ◌≤◌, ◌<◌, ◌≡◌, refl, sym, ap, ◌∙◌, List, [], ◌∷◌, ◌++◌, append_assoc, arith, ltb, ◌==◌,
  if◌then◌else◌, All, append-nil,
}
use cfdp_py.Tracker.{Segment, update, pop, dict_from, insert_sorted, sorted}

-- The keys increase strictly and are at least `lo`.
abbrev pub Increasing : ℕ → List Segment → Type 0
Increasing lo [] = Unit {0}
Increasing lo ((s, e) ∷ r) = (lo ≤ s) × Increasing (suc s) r

-- The segments are not empty, do not overlap, and begin at `lo` or later.
abbrev pub Ordered : ℕ → List Segment → Type 0
Ordered lo [] = Unit {0}
Ordered lo ((s, e) ∷ r) = (lo ≤ s) × (s < e) × Ordered e r

pub Increasing-mono :
    {lo hi : ℕ} (segs : List Segment) → lo ≤ hi → Increasing hi segs → Increasing lo segs
Increasing-mono [] h i = tt
Increasing-mono ((s, e) ∷ r) h i = (omega arith, i.1)

pub Ordered-mono : {lo hi : ℕ} (segs : List Segment) → lo ≤ hi → Ordered hi segs → Ordered lo segs
Ordered-mono [] h i = tt
Ordered-mono ((s, e) ∷ r) h i = (omega arith, i.1, i.2)

pub Ordered-Increasing : (lo : ℕ) (segs : List Segment) → Ordered lo segs → Increasing lo segs
Ordered-Increasing lo [] o = tt
Ordered-Increasing lo ((s, e) ∷ r) o =
    (o.0, Increasing-mono r (omega arith) (Ordered-Increasing e r o.2))

-- Ordered insertion, which replaces the end of a key that is there.
unfoldable pub place : ℕ → ℕ → List Segment → List Segment
place k v [] = (k, v) ∷ []
place k v ((j, w) ∷ r) =
    if j == k then (k, v) ∷ r else if ltb k j then (k, v) ∷ (j, w) ∷ r else (j, w) ∷ place k v r

pub place-Increasing :
    (lo k v : ℕ) (segs : List Segment)
    → Increasing lo segs
    → lo ≤ k
    → Increasing lo (place k v segs)
unfolding place
place-Increasing lo k v [] i h = (h, tt)
place-Increasing lo k v ((j, w) ∷ r) i h = ground (arith, place-Increasing (suc j) k v r i.1)

insert_sorted-below :
    (j w : ℕ) (segs : List Segment)
    → Increasing (suc j) segs
    → insert_sorted (j, w) segs ≡ (j, w) ∷ segs
unfolding insert_sorted
insert_sorted-below j w [] i = refl
insert_sorted-below j w ((s, e) ∷ r) i = ground arith

pub sorted-of-Increasing : (lo : ℕ) (segs : List Segment) → Increasing lo segs → sorted segs ≡ segs
unfolding sorted
sorted-of-Increasing lo [] i = refl
sorted-of-Increasing lo ((s, e) ∷ r) i =
    rw (sorted-of-Increasing (suc s) r i.1) (insert_sorted-below s e r i.1)

place-below :
    (k v j : ℕ) (segs : List Segment)
    → Increasing (suc j) segs
    → k ≤ j
    → place k v segs ≡ (k, v) ∷ segs
unfolding place
place-below k v j [] i h = refl
place-below k v j ((s, e) ∷ r) i h = ground arith

-- A new smallest item sinks below one smaller item.
insert_sorted-above :
    (j w k v : ℕ) (segs : List Segment)
    → k < j
    → Increasing (suc j) segs
    → insert_sorted (j, w) ((k, v) ∷ segs) ≡ (k, v) ∷ (j, w) ∷ segs
insert_sorted-above j w k v segs h i = sinks ∙ ap (λ l. (k, v) ∷ l) (insert_sorted-below j w segs i)
  where
    sinks : insert_sorted (j, w) ((k, v) ∷ segs) ≡ (k, v) ∷ insert_sorted (j, w) segs
    sinks = unfold insert_sorted in ground arith

-- Sorting after an update is ordered insertion.
pub sorted-update :
    (lo k v : ℕ) (segs : List Segment)
    → Increasing lo segs
    → sorted (update k v segs) ≡ place k v segs
unfolding sorted update place
sorted-update lo k v [] i = unfold insert_sorted in refl
sorted-update lo k v ((j, w) ∷ r) i = ground (
  arith,
  sorted-update (suc j) k v r i.1,
  sorted-of-Increasing (suc j) r i.1,
  place-below k v j r i.1,
  insert_sorted-above j w k v r,
  insert_sorted-below k v r,
  insert_sorted-below j w (place k v r),
  place-Increasing (suc j) k v r i.1,
)

-- The keys of `acc` lie below `lo`.
abbrev KeysBelow : ℕ → List Segment → Type 0
KeysBelow lo acc = All (λ (p : Segment). p.0 < lo) acc

update_fresh :
    (lo k v : ℕ) (acc : List Segment)
    → KeysBelow lo acc
    → lo ≤ k
    → update k v acc ≡ acc ++ (k, v) ∷ []
unfolding update
update_fresh lo k v [] b h = refl
update_fresh lo k v ((j, w) ∷ r) b h = ground (arith, update_fresh lo k v r b.1)

KeysBelow-append :
    (lo k v : ℕ) (acc : List Segment)
    → KeysBelow lo acc
    → lo ≤ k
    → KeysBelow (suc k) (acc ++ (k, v) ∷ [])
KeysBelow-append lo k v [] b h = (omega arith, tt)
KeysBelow-append lo k v ((j, w) ∷ r) b h = (omega arith, KeysBelow-append lo k v r b.1 h)

-- Pairs with increasing new keys are appended.
pub dict_from-of-Increasing :
    (lo : ℕ) (acc segs : List Segment)
    → KeysBelow lo acc
    → Increasing lo segs
    → dict_from acc segs ≡ acc ++ segs
unfolding dict_from
dict_from-of-Increasing lo acc [] b i = sym (append-nil acc)
dict_from-of-Increasing lo acc ((k, v) ∷ r) b i = rw (update_fresh lo k v acc b i.0) (
    dict_from-of-Increasing (suc k) (acc ++ (k, v) ∷ []) r (KeysBelow-append lo k v acc b i.0) i.1
    ∙ append_assoc acc ((k, v) ∷ []) r)

pub pop-Ordered : (lo k : ℕ) (segs : List Segment) → Ordered lo segs → Ordered lo (pop k segs)
unfolding pop
pop-Ordered lo k [] o = tt
pop-Ordered lo k ((s, e) ∷ r) o =
    ground (arith, pop-Ordered e k r o.2, Ordered-mono {lo = lo} {hi = e} r)
