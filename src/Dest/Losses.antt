-- ===== src/Dest/Losses.antt =====
-- The detection of lost segments of src/cfdppy/handler/dest.py: no byte that is missing is forgotten.
use cfdp_py.Proc.{when, gets, ◌>>=◌, Proc, returned, ◌>>◌, run}
use cfdp_py.Mib.{RemoteEntityCfg}
use cfdp_py.Tracker.{add_lost_segment, remove_lost_segment}
use cfdp_py.Tracker.Cover.{covers, in_segment}
use cfdp_py.Tracker.Add.{IsDisjoint}
use cfdp_py.Dest.Segments.{lost_segment_handling, immediate_nak, add_segment, remove_segment}
use cfdp_py.Dest.State.{modify_acked, add_packet_to_be_sent, modify_params, set_tracker, DestState}
use cfdp_py.Base.{
  refl, leb, ◌∙◌, ap, Bool-cases, sym, subst, ltb, [], inl, inr, some, ◌∷◌, some, true, ◌≡◌, ◌||◌,
  ◌<◌, Option-cases, ◌≤◌, false, length, arith, ◌+◌, ◌∷◌, Bool, ℕ, List,
}
use cfdp_py.Tracker.Steps.{CoversBelow, add_above, remove_some}

-- Whether a byte of the file stands in one of the packets, given by their offsets and bytes.
abbrev pub delivered : List (ℕ × List ℕ) → ℕ → Bool
delivered [] x = false
delivered ((offset, bytes) ∷ packets) x =
    in_segment x offset (offset + length bytes) || delivered packets x

-- The segments of the tracker lie apart, below `start`, and with the packets they hold every offset
-- below `end`.
pub record KnownAt {F T : Type 0} (packets : List (ℕ × List ℕ)) (start end : ℕ) (s : DestState F T)
    : Type 0 where
  pub disjoint : IsDisjoint s.lost_seg_tracker
  pub in_order : start ≤ end
  pub below : CoversBelow start s.lost_seg_tracker.lost_segments
  pub found :
      (x : ℕ) → x < end → (covers s.lost_seg_tracker.lost_segments x || delivered packets x) ≡ true
  pub remote_cfg : RemoteEntityCfg
  pub configured : s.params.remote_cfg ≡ some remote_cfg

abbrev pub Known : {F T : Type 0} → List (ℕ × List ℕ) → DestState F T → Type 0
Known packets s =
    KnownAt packets s.params.acked_params.last_start_offset s.params.acked_params.last_end_offset s

-- Only the tracker and the configuration count.
pub moved :
    {F T : Type 0} (packets : List (ℕ × List ℕ)) (a b : ℕ) (s t : DestState F T)
    → t.lost_seg_tracker ≡ s.lost_seg_tracker
    → t.params.remote_cfg ≡ s.params.remote_cfg
    → KnownAt packets a b s
    → KnownAt packets a b t
moved packets a b s t e c k = record {
  disjoint = subst IsDisjoint (sym e) k.disjoint;
  in_order = k.in_order;
  below = λ x h. k.below x (ap (λ u. covers u.lost_segments x) (sym e) ∙ h);
  found = λ x h. ap (λ u. covers u.lost_segments x || delivered packets x) e ∙ k.found x h;
  remote_cfg = k.remote_cfg;
  configured = c ∙ k.configured;
}

module _ {F T : Type 0} (packets : List (ℕ × List ℕ)) (offset : ℕ) (bytes : List ℕ) where
  -- One packet more.
  weaker :
      (s : DestState F T) (a b : ℕ)
      → KnownAt packets a b s
      → KnownAt ((offset, bytes) ∷ packets) a b s
  weaker s a b k = record {
    disjoint = k.disjoint;
    in_order = k.in_order;
    below = k.below;
    found = λ x h. ground (arith, k.found x h);
    remote_cfg = k.remote_cfg;
    configured = k.configured;
  }

  removal_step :
      (s : DestState F T)
      → Known ((offset, bytes) ∷ packets) s
      → Known ((offset, bytes) ∷ packets) (remove_segment (offset, offset + length bytes) s).1
  removal_step s k =
      elim (Option-cases (remove_lost_segment (offset, offset + length bytes) s.lost_seg_tracker)) [
        | inl e ↦
            let step : (remove_segment (offset, offset + length bytes) s).1 ≡ s =
              unfold remove_segment run in ground (arith, e) in
            subst (Known ((offset, bytes) ∷ packets)) (sym step) k
        | inr ((u, done), e) ↦
            let step : (remove_segment (offset, offset + length bytes) s).1
                ≡ record s { lost_seg_tracker = u } =
              unfold remove_segment set_tracker run in ground (arith, e) in
            let (d, c) =
              remove_some offset (offset + length bytes) s.lost_seg_tracker u done k.disjoint
                (omega arith) e in
            subst (Known ((offset, bytes) ∷ packets)) (sym step) (record {
              disjoint = d;
              in_order = k.in_order;
              below = λ x h. ground (arith, c x, k.below x);
              found = λ x h. ground (arith, c x, k.found x h);
              remote_cfg = k.remote_cfg;
              configured = k.configured;
            })
      ]

  gap_runs :
      (s : DestState F T)
      → Known packets s
      → (last : ℕ)
      → let result =
          (add_segment (last, offset) >> immediate_nak (last, offset) (offset + length bytes)) s in
        (result.0 ≡ returned tt)
        × (result.1.lost_seg_tracker ≡ add_lost_segment (last, offset) s.lost_seg_tracker)
        × (result.1.params ≡ s.params)
  unfolding add_segment immediate_nak set_tracker add_packet_to_be_sent run
  gap_runs s k last = elim (Bool-cases k.remote_cfg.immediate_nak_mode) [
    | inl e ↦ ground (arith, k.configured)
    | inr e ↦ ground (arith, k.configured)
  ]

  -- A new gap is recorded, up to a packet that lies above all before.
  gap_step :
      (s : DestState F T)
      → Known packets s
      → (ltb s.params.acked_params.last_end_offset offset) ≡ true
      → let result =
          (add_segment (s.params.acked_params.last_end_offset, offset)
              >> immediate_nak
                  (s.params.acked_params.last_end_offset, offset)
                  (offset + length bytes))
            s in
        (result.0 ≡ returned tt)
        × KnownAt ((offset, bytes) ∷ packets) offset (offset + length bytes) result.1
        × (result.1.params ≡ s.params)
  gap_step s k l =
      let last = s.params.acked_params.last_end_offset in
      let (d, c) =
        add_above last offset s.lost_seg_tracker k.disjoint
          (λ x h. omega (arith, k.below x h, k.in_order)) (ground arith) in
      let s1 = record s { lost_seg_tracker = add_lost_segment (last, offset) s.lost_seg_tracker } in
      let known : KnownAt ((offset, bytes) ∷ packets) offset (offset + length bytes) s1 = record {
        disjoint = d;
        in_order = omega arith;
        below = λ x h. ground (arith, c x, k.below x, k.in_order);
        found = λ x h. ground (arith, c x, k.found x);
        remote_cfg = k.remote_cfg;
        configured = k.configured;
      } in
      let m = add_segment (last, offset) >> immediate_nak (last, offset) (offset + length bytes) in
      let (r, u, v) = gap_runs s k last in
      (
        r,
        moved ((offset, bytes) ∷ packets) offset (offset + length bytes) s1 (m s).1 u
            (ap (λ p. p.remote_cfg) v) known,
        v,
      )

  -- The part of the handling before the removal.
  abbrev new_end : Proc (DestState F T) (Unit {0})
  new_end = do
    acked ← gets (λ s. s.params.acked_params)
    when (ltb acked.last_end_offset offset) do
      add_segment (acked.last_end_offset, offset)
      immediate_nak (acked.last_end_offset, offset) (offset + length bytes)
    when (leb acked.last_end_offset offset) (
        modify_acked
          (λ p. record p { last_start_offset = offset; last_end_offset = offset + length bytes }))

  abbrev ends_at : DestState F T → DestState F T
  ends_at s = record s {
    params = record s.params {
      acked_params = record s.params.acked_params {
        last_start_offset = offset;
        last_end_offset = offset + length bytes;
      };
    };
  }

  -- The packet follows on the one that reached farthest.
  next_to :
      (s : DestState F T)
      → Known packets s
      → s.params.acked_params.last_end_offset ≡ offset
      → KnownAt ((offset, bytes) ∷ packets) offset (offset + length bytes) s
  next_to s k e = record {
    disjoint = k.disjoint;
    in_order = omega arith;
    below = λ x h. omega (arith, k.below x h, k.in_order, e);
    found = λ x h. ground (arith, k.found x);
    remote_cfg = k.remote_cfg;
    configured = k.configured;
  }

  new_end-Known :
      (s : DestState F T)
      → Known packets s
      → ((new_end s).0 ≡ returned tt) × Known ((offset, bytes) ∷ packets) (new_end s).1
  new_end-Known s k = elim (Bool-cases (ltb s.params.acked_params.last_end_offset offset)) [
    | inl l ↦
        let (r, q, v) = gap_step s k l in
        let g =
          add_segment (s.params.acked_params.last_end_offset, offset)
          >> immediate_nak (s.params.acked_params.last_end_offset, offset)
              (offset + length bytes) in
        let t = (g s).1 in
        let step : new_end s ≡ (returned tt, ends_at t) =
          unfold modify_params run in ground (arith, r, l) in
        subst (λ x. (x.0 ≡ returned tt) × Known ((offset, bytes) ∷ packets) x.1) (sym step)
          (refl, moved _ _ _ t (ends_at t) refl refl q)
    | inr l ↦ elim (Bool-cases (leb s.params.acked_params.last_end_offset offset)) [
      | inl m ↦
          let step : new_end s ≡ (returned tt, ends_at s) =
            unfold modify_params run in ground (arith, l, m) in
          subst (λ x. (x.0 ≡ returned tt) × Known ((offset, bytes) ∷ packets) x.1) (sym step)
            (refl, moved _ _ _ s (ends_at s) refl refl (next_to s k (ground arith)))
      | inr m ↦
          let step : new_end s ≡ (returned tt, s) = unfold run in ground (arith, l, m) in
          subst (λ x. (x.0 ≡ returned tt) × Known ((offset, bytes) ∷ packets) x.1) (sym step)
            (refl, weaker s _ _ k)
    ]
  ]

  abbrev after_end : Proc (DestState F T) (Unit {0})
  after_end = do
    last_start_offset ← gets (λ s. s.params.acked_params.last_start_offset)
    when (leb (offset + length bytes) last_start_offset)
        (remove_segment (offset, offset + length bytes))

  -- A file data packet, wherever it lies, keeps every missing byte below the last end in the tracker.
  pub lost_segment_handling-Known :
      (s : DestState F T)
      → Known packets s
      → Known ((offset, bytes) ∷ packets) (lost_segment_handling offset (length bytes) s).1
  lost_segment_handling-Known s k =
      let (r, q) = new_end-Known s k in
      let t = (new_end s).1 in
      let step : lost_segment_handling offset (length bytes) s ≡ after_end t =
        unfold lost_segment_handling run in ground (arith, r) in
      subst (λ x. Known ((offset, bytes) ∷ packets) x.1) (sym step)
        (elim (Bool-cases (leb (offset + length bytes) t.params.acked_params.last_start_offset)) [
          | inl e ↦
              let last : after_end t ≡ remove_segment (offset, offset + length bytes) t =
                unfold run in ground (arith, e) in
              subst (λ x. Known ((offset, bytes) ∷ packets) x.1) (sym last) (removal_step t q)
          | inr e ↦
              let last : after_end t ≡ (returned tt, t) = unfold run in ground (arith, e) in
              subst (λ x. Known ((offset, bytes) ∷ packets) x.1) (sym last) q
        ])
