-- ===== src/Execution/Plan/Accepted.antt =====
-- What the validation loops of `plan_execution_priority` (src/core/execution_priority.cc)
-- establish of an accepted snapshot.
use glimmer.Prelude.{
  ℕ, zero, suc, ◌≤◌, ◌≡◌, ◌≢◌, refl, ◌⊎◌, inl, inr, true, false, ◌||◌, some, List, [], ◌∷◌, map,
  arith, length, get_elem?, any, Bool-cases, Option-cases, ◌==◌, ltb, max, ap,
}
use glimmer.Execution.{ExecutionSchedulingMode, ExecutionPriorityPeer}
use glimmer.Execution.Plan.{
  Scan, scan_peer, scan_peers, rejects_peer, rejects_progress, counts_priority, start, outlook,
  decide_peer, plan_execution_priority,
}

-- An accepted snapshot and its plan.
pub record IsAccepted (peers : List ExecutionPriorityPeer) (mode : ExecutionSchedulingMode)
    (s : Scan) : Type 0 where
  pub few : length peers ≤ 64
  pub scanned : scan_peers mode [] start peers ≡ some s
  pub bound_progress : any (rejects_progress peers) peers ≡ false
  pub planned : plan_execution_priority peers mode ≡ record {
    decisions = map (decide_peer mode (outlook mode s peers)) peers;
    selected_priority = s.selected_priority;
    is_valid = true;
  }

pub plan-IsAccepted :
    (peers : List ExecutionPriorityPeer) (mode : ExecutionSchedulingMode)
    → (plan_execution_priority peers mode).is_valid ≡ true
    → (s : Scan) × IsAccepted peers mode s
unfolding plan_execution_priority
plan-IsAccepted peers mode h = elim (Option-cases (scan_peers mode [] start peers)) [
  | inl e ↦ ground arith
  | inr (s, e) ↦ (
    s,
    record {
      few = ground arith;
      scanned = e;
      bound_progress = ground arith;
      planned = ground arith;
    },
  )
]

module _ (mode : ExecutionSchedulingMode) where
  pub scan_unknown :
      (ps earlier : List ExecutionPriorityPeer) (s0 s : Scan)
      → scan_peers mode earlier s0 ps ≡ some s
      → s.has_unknown ≡ s0.has_unknown || any (λ p. p.has_unknown_state) ps
  unfolding scan_peers scan_peer
  scan_unknown [] earlier s0 s e = ground arith
  scan_unknown (p ∷ ps) earlier s0 s e =
      ground (arith, scan_unknown ps (p ∷ earlier) (scan_peer mode s0 p) s)

  scan_grows :
      (ps earlier : List ExecutionPriorityPeer) (s0 s : Scan) (n : ℕ)
      → scan_peers mode earlier s0 ps ≡ some s
      → s0.selected_priority ≡ some n
      → (top : ℕ) × (s.selected_priority ≡ some top) × (n ≤ top)
  unfolding scan_peers scan_peer
  scan_grows [] earlier s0 s n e h = (n, ground arith, omega arith)
  scan_grows (p ∷ ps) earlier s0 s n e h = elim (Bool-cases (counts_priority mode p)) [
    | inl c ↦
        let (top, at, bound) =
          scan_grows ps (p ∷ earlier) (scan_peer mode s0 p) s (max n p.priority) (ground arith)
            (ground arith) in
        (top, at, omega (arith, bound))
    | inr c ↦
        let (top, at, bound) =
          scan_grows ps (p ∷ earlier) (scan_peer mode s0 p) s n (ground arith) (ground arith) in
        (top, at, bound)
  ]

  -- A peer that counts is bounded by the selected priority.
  pub scan_bounds :
      (ps earlier : List ExecutionPriorityPeer) (s0 s : Scan) (i : ℕ) (p : ExecutionPriorityPeer)
      → scan_peers mode earlier s0 ps ≡ some s
      → get_elem? ps i ≡ some p
      → counts_priority mode p ≡ true
      → (top : ℕ) × (s.selected_priority ≡ some top) × (p.priority ≤ top)
  unfolding scan_peers
  scan_bounds [] earlier s0 s i p e at c = cc
  scan_bounds (q ∷ ps) earlier s0 s zero p e at c = elim (Option-cases s0.selected_priority) [
    | inl h ↦
        let (top, sel, bound) =
          scan_grows ps (q ∷ earlier) (scan_peer mode s0 q) s p.priority (ground arith)
            (unfold scan_peer in ground arith) in
        (top, sel, bound)
    | inr (m, h) ↦
        let (top, sel, bound) =
          scan_grows ps (q ∷ earlier) (scan_peer mode s0 q) s (max m p.priority) (ground arith)
            (unfold scan_peer in ground arith) in
        (top, sel, omega (arith, bound))
  ]
  scan_bounds (q ∷ ps) earlier s0 s (suc i) p e at c =
      scan_bounds ps (q ∷ earlier) (scan_peer mode s0 q) s i p (ground arith) at c

  -- The selected priority is that of a peer that counts.
  pub scan_attained :
      (ps earlier : List ExecutionPriorityPeer) (s0 s : Scan) (top : ℕ)
      → scan_peers mode earlier s0 ps ≡ some s
      → s.selected_priority ≡ some top
      → (s0.selected_priority ≡ some top)
        ⊎ ((i : ℕ) × (p : ExecutionPriorityPeer) × (get_elem? ps i ≡ some p)
            × (counts_priority mode p ≡ true)
            × (p.priority ≡ top))
  unfolding scan_peers scan_peer
  scan_attained [] earlier s0 s top e h = inl (ground arith)
  scan_attained (q ∷ ps) earlier s0 s top e h =
      elim (scan_attained ps (q ∷ earlier) (scan_peer mode s0 q) s top (ground arith) h) [
        | inl old ↦ split (Bool-cases (counts_priority mode q)) old
        | inr (i, p, at, c, eq) ↦ inr (suc i, p, at, c, eq)
      ]
    where
      split :
          (counts_priority mode q ≡ true) ⊎ (counts_priority mode q ≡ false)
          → (scan_peer mode s0 q).selected_priority ≡ some top
          → (s0.selected_priority ≡ some top)
            ⊎ ((i : ℕ) × (p : ExecutionPriorityPeer) × (get_elem? (q ∷ ps) i ≡ some p)
                × (counts_priority mode p ≡ true)
                × (p.priority ≡ top))
      split (inr no_count) old = inl (ground arith)
      split (inl c) old = elim (Bool-cases (ltb q.priority top)) [
        | inl below ↦ inl (ground arith)
        | inr reached ↦ elim (Bool-cases (q.priority == top)) [
          | inl eq ↦ inr (zero, q, refl, c, ground arith)
          | inr above ↦ ground arith
        ]
      ]

  -- Sessions of an accepted snapshot are nonzero and new.
  pub scan_sessions :
      (ps earlier : List ExecutionPriorityPeer) (s0 s : Scan) (i : ℕ) (p : ExecutionPriorityPeer)
      → scan_peers mode earlier s0 ps ≡ some s
      → get_elem? ps i ≡ some p
      → (p.session ≢ 0) × (any (λ e. e.session == p.session) earlier ≡ false)
  unfolding scan_peers rejects_peer
  scan_sessions [] earlier s0 s i p e at = cc
  scan_sessions (q ∷ ps) earlier s0 s zero p e at = (ground arith, ground arith)
  scan_sessions (q ∷ ps) earlier s0 s (suc i) p e at =
      let (positive, new) =
        scan_sessions ps (q ∷ earlier) (scan_peer mode s0 q) s i p (ground arith) at in
      (positive, ground arith)

  pub scan_distinct :
      (ps earlier : List ExecutionPriorityPeer) (s0 s : Scan) (i j : ℕ)
      {p q : ExecutionPriorityPeer}
      → scan_peers mode earlier s0 ps ≡ some s
      → get_elem? ps i ≡ some p
      → get_elem? ps j ≡ some q
      → p.session ≡ q.session
      → i ≡ j
  unfolding scan_peers
  scan_distinct [] earlier s0 s i j e hi hj h = cc
  scan_distinct (x ∷ ps) earlier s0 s zero zero e hi hj h = refl
  scan_distinct (x ∷ ps) earlier s0 s zero (suc j) {p} {q} e hi hj h =
      let (positive, new) =
        scan_sessions ps (x ∷ earlier) (scan_peer mode s0 x) s j q (ground arith) hj in
      ground arith
  scan_distinct (x ∷ ps) earlier s0 s (suc i) zero {p} {q} e hi hj h =
      let (positive, new) =
        scan_sessions ps (x ∷ earlier) (scan_peer mode s0 x) s i p (ground arith) hi in
      ground arith
  scan_distinct (x ∷ ps) earlier s0 s (suc i) (suc j) e hi hj h =
      ap suc (scan_distinct ps (x ∷ earlier) (scan_peer mode s0 x) s i j (ground arith) hi hj h)
