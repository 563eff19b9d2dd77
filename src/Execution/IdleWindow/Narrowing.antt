-- ===== src/Execution/IdleWindow/Narrowing.antt =====
-- The idle window of src/core/execution_priority.cc only takes authority away, and holds work of
-- low priority back for exactly the configured time.
use glimmer.Prelude.{
  ℕ, zero, suc, ◌<◌, ◌≡◌, ◌≢◌, refl, ◌⊎◌, inl, inr, Bool, true, false, not, ◌&&◌, ◌||◌, none, some,
  List, [], ◌∷◌, arith, get_elem?, any, Bool-cases, ltb, leb, is_some, if◌then◌else◌, ◌∙◌, sym,
  subst,
}
use glimmer.Execution.{
  ExecutionSchedulingMode, ExecutionPriorityPeer, wait, execute, execute_progress,
  ExecutionPriorityDecision, ExecutionPriorityPlan, invalid_plan, has_work, is_execute,
}
use glimmer.Execution.IdleWindow.{
  ExecutionPriorityIdleWindow, note_issue, note_peers, narrow, narrow_all, apply_noted, apply,
}

-- A peer at or above the configured priority with work of any kind.
abbrev pub high_work : ℕ → ExecutionPriorityPeer → Bool
high_work priority p = not (ltb p.priority priority) && has_work p

-- A window counts idle time only after activity.
abbrev pub IsArmed : ExecutionPriorityIdleWindow → Type 0
IsArmed w = is_some w.idle_since_ns ≡ true → w.has_activity ≡ true

pub note_peers_high :
    (ps : List ExecutionPriorityPeer) (w : ExecutionPriorityIdleWindow) (high : Bool)
    → ((note_peers w high ps).1 ≡ (high || any (high_work w.config.priority) ps))
      × ((note_peers w high ps).0.config ≡ w.config)
      × ((note_peers w high ps).0.last_now_ns ≡ w.last_now_ns)
unfolding note_peers
note_peers_high [] w high = (ground arith, refl, refl)
note_peers_high (p ∷ ps) w high = ground (
  arith,
  note_peers_high ps w high,
  note_peers_high ps w (high || has_work p),
  note_peers_high ps (note_issue w p.priority) (high || has_work p),
)

pub note_peers_quiet :
    (ps : List ExecutionPriorityPeer) (w : ExecutionPriorityIdleWindow)
    → any (high_work w.config.priority) ps ≡ false
    → note_peers w false ps ≡ (w, false)
unfolding note_peers
note_peers_quiet [] w h = refl
note_peers_quiet (p ∷ ps) w h = ground (arith, note_peers_quiet ps w)

note_peers-IsArmed :
    (ps : List ExecutionPriorityPeer) (w : ExecutionPriorityIdleWindow) (high : Bool)
    → IsArmed w
    → IsArmed (note_peers w high ps).0
unfolding note_peers
note_peers-IsArmed [] w high v = v
note_peers-IsArmed (p ∷ ps) w high v = note_peers-IsArmed ps _ _ (ground arith)

pub get_elem?-narrow_all :
    (priority : ℕ) (ps : List ExecutionPriorityPeer) (ds : List ExecutionPriorityDecision) (i : ℕ)
    {p : ExecutionPriorityPeer} {d' : ExecutionPriorityDecision}
    → get_elem? ps i ≡ some p
    → get_elem? (narrow_all priority ps ds) i ≡ some d'
    → (d : ExecutionPriorityDecision) × (get_elem? ds i ≡ some d) × (d' ≡ narrow priority p d)
unfolding narrow_all
get_elem?-narrow_all priority [] ds i hp hd = cc
get_elem?-narrow_all priority (q ∷ ps) [] i hp hd = cc
get_elem?-narrow_all priority (q ∷ ps) (d ∷ ds) zero hp hd = (d, refl, ground arith)
get_elem?-narrow_all priority (q ∷ ps) (d ∷ ds) (suc i) hp hd =
    get_elem?-narrow_all priority ps ds i hp hd

apply_noted-IsArmed :
    (w : ExecutionPriorityIdleWindow) (high : Bool) (peers : List ExecutionPriorityPeer) (now : ℕ)
    (plan : ExecutionPriorityPlan)
    → IsArmed w
    → IsArmed (apply_noted (w, high) peers now plan).0
      × ((apply_noted (w, high) peers now plan).0.config ≡ w.config)
unfolding apply_noted
apply_noted-IsArmed w true peers now plan v = (λ h. cc, refl)
apply_noted-IsArmed w false peers now plan v = (ground arith, ground arith)

-- A call of `apply` keeps the configuration and, in a window that counts idle time only after
-- activity, keeps this so.
pub apply-IsArmed :
    (w : ExecutionPriorityIdleWindow) (peers : List ExecutionPriorityPeer)
    (mode : ExecutionSchedulingMode) (now : ℕ) (plan : ExecutionPriorityPlan)
    → IsArmed w
    → IsArmed (apply w peers mode now plan).0 × ((apply w peers mode now plan).0.config ≡ w.config)
apply-IsArmed w peers mode now plan v =
    let seen : ExecutionPriorityIdleWindow = record w { last_now_ns = some now } in
    let armed : IsArmed (note_peers seen false peers).0 = note_peers-IsArmed peers seen false v in
    let kept = note_peers_high peers seen false in
    let noted =
      apply_noted-IsArmed (note_peers seen false peers).0 (note_peers seen false peers).1 peers now
        plan armed in
    (unfold apply in ground arith, unfold apply in ground arith)

-- A decision to execute that is taken back: what is left is the peer's dependency cut, if it has a
-- progress binding, or to wait.
pub record IsHeldBack (priority : ℕ) (p : ExecutionPriorityPeer) (d d' : ExecutionPriorityDecision)
    : Type 0 where
  pub low : p.priority < priority
  pub was_execute : d.action ≡ execute
  pub withheld : d' ≡ record d {
    action = if is_some p.progress then execute_progress else wait;
    progress = p.progress;
    command = none;
  }

narrow_cases :
    (priority : ℕ) (p : ExecutionPriorityPeer) (d : ExecutionPriorityDecision)
    → ((narrow priority p d ≡ d) × (p.priority < priority → d.action ≢ execute))
      ⊎ IsHeldBack priority p d (narrow priority p d)
unfolding narrow
narrow_cases priority p d =
    elim (Bool-cases (leb priority p.priority || not (is_execute d.action))) [
      | inl kept ↦ inl (ground arith, ground arith)
      | inr held ↦
          inr (record { low = ground arith; was_execute = ground arith; withheld = ground arith })
    ]

-- The answer of a call is the refusal, the plan itself, or the plan with low decisions held back.
apply_cases :
    (w : ExecutionPriorityIdleWindow) (peers : List ExecutionPriorityPeer)
    (mode : ExecutionSchedulingMode) (now : ℕ) (plan : ExecutionPriorityPlan)
    → ((apply w peers mode now plan).1 ≡ invalid_plan)
      ⊎ (((apply w peers mode now plan).1 ≡ plan)
          ⊎ ((apply w peers mode now plan).1
              ≡ record plan { decisions = narrow_all w.config.priority peers plan.decisions }))
apply_cases w peers mode now plan =
    let seen : ExecutionPriorityIdleWindow = record w { last_now_ns = some now } in
    let kept = note_peers_high peers seen false in unfold apply in ground (arith, kept)

-- `apply` only narrows a plan: in its answer, where that is valid, each decision is the old one,
-- or it was to execute a peer below the configured priority and is now a dependency cut of the
-- peer's own binding, or to wait. The selected priority is that of the plan.
pub apply_narrows :
    (w : ExecutionPriorityIdleWindow) (peers : List ExecutionPriorityPeer)
    (mode : ExecutionSchedulingMode) (now : ℕ) (plan : ExecutionPriorityPlan) (i : ℕ)
    (p : ExecutionPriorityPeer) (d' : ExecutionPriorityDecision)
    → (apply w peers mode now plan).1.is_valid ≡ true
    → get_elem? peers i ≡ some p
    → get_elem? (apply w peers mode now plan).1.decisions i ≡ some d'
    → (d : ExecutionPriorityDecision) × (get_elem? plan.decisions i ≡ some d)
      × ((d' ≡ d) ⊎ IsHeldBack w.config.priority p d d')
      × ((apply w peers mode now plan).1.selected_priority ≡ plan.selected_priority)
apply_narrows w peers mode now plan i p d' h here at = elim (apply_cases w peers mode now plan) [
  | inl refused ↦ ground arith
  | inr (inl same) ↦ (d', ground arith, inl refl, ground arith)
  | inr (inr narrowed) ↦
      let (d, was, eq) =
        get_elem?-narrow_all w.config.priority peers plan.decisions i {p = p} {d' = d'} here
          (ground arith) in
      (
        d,
        was,
        elim (narrow_cases w.config.priority p d) [
          | inl (same, _) ↦ inl (eq ∙ same)
          | inr held ↦ inr (subst (IsHeldBack w.config.priority p d) (sym eq) held)
        ],
        ground arith,
      )
]
