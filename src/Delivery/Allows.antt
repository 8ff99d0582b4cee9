-- ===== src/Delivery/Allows.antt =====
-- Exactly when `_evaluate_local_delivery_policy` of core/delivery.py has nothing against a delivery.
use kafa.Base.{
  ℕ, ◌≡◌, refl, ap, sym, subst, Bool, true, false, not, ◌&&◌, Option, none, some, List, [], ◌∷◌,
  ◌↔◌, ◌⊎◌, when, if◌then◌else◌,
}
use kafa.Base.Members.{
  In, In-select, select-In, append-nil_iff, append-eq-nil, collect_iff, when-nil_iff,
}
use kafa.Ledger.{
  >>=-eq-ok, ProjectRow, CycleRow, Error, Result, ok, err, ok-injective, project_missing,
}
use kafa.Trust.Policy.{Decision}
use kafa.Trust.Approval.{when_iff}
use kafa.Delivery.Facts.{
  Facts, ValidationRow, AcceptanceRow, FailureModeRow, GateRow, Inspectors, Request, Scope,
}
use kafa.Delivery.Findings.{FindingRow, Settled}
use kafa.Delivery.Coverage.{delivery_validations}
use kafa.Delivery.Risks.{risky_modes, risky_findings, is_excused}
use kafa.Delivery.Checks.{
  worktree_dirty, is_open_cycle, scope_issues, graph_issues, is_active_acceptance, proof_issues,
  current, latest_gate, gate_conditions, gate_issues, worktree,
}
use kafa.Delivery.Policy.{
  for_cycle, for_project, trust_of, later_issues, cycle_for, scope_for, in_scope, without,
  evaluate_local_delivery_policy,
}
use kafa.Delivery.Clear.{
  Proven, Covered, Passed, GateInOrder, Resolved, GraphClear, mode-nil_iff, finding-nil_iff,
  gate-nil_iff, proof-nil_iff, invalidation-nil_iff, graph-nil_iff, scope-nil_iff,
}

-- The working tree was read and is clean, where it has a head and the evaluation is of the present.
abbrev pub TreeClean : Inspectors → Request → Type 0
TreeClean insp req = req.historical ≡ false → insp.has_head ≡ true → insp.git_dirty ≡ ok false

-- Nothing stands against the delivery of a cycle and a candidate: the project revision is valid and
-- the cycle open, the requirements graph and its proofs are in order where they are asked for,
-- nothing is stale, each failure mode above low is excused or covered, each such finding settled,
-- the latest gate in order over a clean tree, and the trust policy allows it.
pub record Clear (insp : Inspectors) (facts : Facts) (req : Request) (scope : Scope) (d : Decision)
    : Type 0 where
  pub revision : ℕ
  pub revision_at : scope.revision ≡ some revision
  pub cycle_open : is_open_cycle scope.cycle.status ≡ true
  pub graph : GraphClear insp facts scope req
  pub resolved : Resolved insp facts scope
  pub passed :
      req.include_graph_issues ≡ true
      → (v : ValidationRow) → In v (delivery_validations facts scope)
      → Passed insp facts scope v
  pub proven :
      req.include_graph_issues ≡ true
      → (a : AcceptanceRow) → In a facts.acceptances
      → is_active_acceptance insp facts scope a ≡ true
      → Proven insp facts scope a
  pub modes :
      (mode : FailureModeRow)
      → In mode (risky_modes facts scope)
      → (is_excused facts scope mode ≡ true) ⊎ Covered insp facts scope mode
  pub findings :
      (f : FindingRow)
      → In f (risky_findings facts scope)
      → Settled insp.parse insp.is_expired f (current insp facts scope)
  pub gate : GateRow
  pub gate_at : latest_gate insp facts scope ≡ some gate
  pub gate_in_order : GateInOrder insp facts scope gate
  pub tree_clean : TreeClean insp req
  pub decided : d ≡ trust_of insp facts scope req.observed_at
  pub allowed : d.delivery_allowed ≡ true

module _ (insp : Inspectors) (facts : Facts) (req : Request) (scope : Scope) where
  -- The same as nested pairs, in the order of the issues.
  Later : Bool → Type 0
  Later dirty =
      Resolved insp facts scope
      × ((req.include_graph_issues ≡ true → proof_issues insp facts scope ≡ [])
          × (((mode : FailureModeRow)
                → In mode (risky_modes facts scope)
                → (is_excused facts scope mode ≡ true) ⊎ Covered insp facts scope mode)
              × (((f : FindingRow)
                    → In f (risky_findings facts scope)
                    → Settled insp.parse insp.is_expired f (current insp facts scope))
                  × (((g : GateRow) × (latest_gate insp facts scope ≡ some g)
                        × GateInOrder insp facts scope g
                        × (dirty ≡ false))
                      × ((trust_of insp facts scope req.observed_at).delivery_allowed ≡ true)))))

  if_asked : {A : Type 0} (b : Bool) (xs : List A) → (when b xs ≡ []) ↔ (b ≡ true → xs ≡ [])
  if_asked true xs = (λ h _. h, λ h. h refl)
  if_asked false xs = (λ _ e. cc, λ _. refl)

  latest-nil_iff :
      (dirty : Bool) (o : Option GateRow)
      → (gate_issues insp facts scope dirty o ≡ [])
        ↔ ((g : GateRow) × (o ≡ some g) × GateInOrder insp facts scope g × (dirty ≡ false))
  unfolding gate_issues
  latest-nil_iff dirty none = (λ h. cc, λ (g, e, _, _). cc)
  latest-nil_iff dirty (some g) =
      let (to, from) =
        append-nil_iff (gate_conditions insp facts scope g) (gate-nil_iff insp facts scope g)
          (when-nil_iff dirty worktree_dirty) in
      (
        λ h. let (a, b) = to h in (g, refl, a, b),
        λ (k, e, a, b). from (subst (GateInOrder insp facts scope) (some_same (sym e)) a, b),
      )
    where
      some_same : {a b : GateRow} → some a ≡ some b → a ≡ b
      some_same e = cc

  worktree_iff :
      (g : GateRow)
      → (worktree insp facts scope req.historical (some g) ≡ ok false) ↔ TreeClean insp req
  unfolding worktree
  worktree_iff g = asked req.historical insp.has_head
    where
      asked :
          (b c : Bool)
          → ((if not b && c then insp.git_dirty else ok false) ≡ ok false)
            ↔ (b ≡ false → c ≡ true → insp.git_dirty ≡ ok false)
      asked true c = (λ _ e. cc, λ _. refl)
      asked false false = (λ _ _ e. cc, λ _. refl)
      asked false true = (λ h _ _. h, λ h. h refl refl)

  Later-nil_iff : (dirty : Bool) → (later_issues insp facts scope req dirty ≡ []) ↔ Later dirty
  unfolding later_issues Later
  Later-nil_iff dirty = append-nil_iff _ (invalidation-nil_iff insp facts scope) (
      append-nil_iff _ (if_asked _ _) (
        append-nil_iff _ (collect_iff _ _ (mode-nil_iff insp facts scope)) (
          append-nil_iff _ (collect_iff _ _ (finding-nil_iff insp facts scope))
            (append-nil_iff _ (latest-nil_iff dirty _) (when_iff _ _)))))

  of_pairs :
      (d : Decision)
      → ((r : ℕ) × (scope.revision ≡ some r)) × (is_open_cycle scope.cycle.status ≡ true)
      → GraphClear insp facts scope req
      → (dirty : Bool)
      → worktree insp facts scope req.historical (latest_gate insp facts scope) ≡ ok dirty
      → Later dirty
      → d ≡ trust_of insp facts scope req.observed_at
      → Clear insp facts req scope d
  unfolding Later
  of_pairs d ((r, ra), o) g dirty w
        (resolved, (proofs, (modes, (findings, ((gate, at, in_order, tree), allowed))))) e =
      record {
        revision = r;
        revision_at = ra;
        cycle_open = o;
        graph = g;
        resolved = resolved;
        passed = λ e. ((proof-nil_iff insp facts scope).0 (proofs e)).0;
        proven = λ e a m t.
            ((proof-nil_iff insp facts scope).0 (proofs e)).1 a (In-select _ facts.acceptances m t);
        modes = modes;
        findings = findings;
        gate = gate;
        gate_at = at;
        gate_in_order = in_order;
        tree_clean = (worktree_iff gate).0 (
            clean dirty _ (subst (λ x. worktree insp facts scope req.historical x ≡ ok dirty) at w)
              tree);
        decided = e;
        allowed = subst (λ (x : Decision). x.delivery_allowed ≡ true) (sym e) allowed;
      }
    where
      clean : (b : Bool) (r : Result Bool) → r ≡ ok b → b ≡ false → r ≡ ok false
      clean b r h e = rw (← e) h

  to_later : (d : Decision) → Clear insp facts req scope d → Later false
  unfolding Later
  to_later d c = (
    c.resolved,
    (
      λ e.
          (proof-nil_iff insp facts scope).1
            (c.passed e, λ a m. let (n, t) = select-In _ facts.acceptances m in c.proven e a n t),
      (
        c.modes,
        (
          c.findings,
          (
            (c.gate, c.gate_at, c.gate_in_order, refl),
            subst (λ (x : Decision). x.delivery_allowed ≡ true) c.decided c.allowed,
          ),
        ),
      ),
    ),
  )

  in_scope_iff :
      (project : ProjectRow) (d : Decision)
      → (in_scope insp facts req project scope ≡ ok ([], d)) ↔ Clear insp facts req scope d
  unfolding in_scope
  in_scope_iff project d = (
    λ h.
        let (graph, g, rest) = >>=-eq-ok (graph_issues insp facts req scope) _ h in
        let (dirty, w, done) =
          >>=-eq-ok (worktree insp facts scope req.historical (latest_gate insp facts scope)) _
            rest in
        let (a, b) =
          append-eq-nil (scope_issues req project scope) _ (ap (λ x. x.0) (ok-injective done)) in
        let (n, l) = append-eq-nil graph _ b in
        of_pairs d ((scope-nil_iff insp facts scope req project).0 a)
          ((graph-nil_iff insp facts scope req).0
            (subst (λ x. graph_issues insp facts req scope ≡ ok x) n g))
          dirty w ((Later-nil_iff dirty).0 l) (sym (ap (λ x. x.1) (ok-injective done))),
    λ c.
        rw
          (
            (graph-nil_iff insp facts scope req).1 c.graph,
            c.gate_at,
            (worktree_iff c.gate).1 c.tree_clean,
            (scope-nil_iff insp facts scope req project).1
                ((c.revision, c.revision_at), c.cycle_open),
            (Later-nil_iff false).1 (to_later d c),
            c.decided,
          )
          refl,
  )

cons_not_nil : {A : Type 0} (x : A) (xs : List A) → x ∷ xs ≡ [] → ⊥
cons_not_nil x xs h = cc

err_not_ok {ℓ} : {A : Type ℓ} (e : Error) (a : A) (r : Result A) → r ≡ err e → r ≡ ok a → ⊥
err_not_ok e a r s t = cc

none_not_some {ℓ} : {A : Type ℓ} (a : A) (o : Option A) → o ≡ none → o ≡ some a → ⊥
none_not_some a o s t = cc

-- The project is initialized and has a cycle, the candidate is known, and nothing stands against the
-- delivery.
pub record Allowed (insp : Inspectors) (facts : Facts) (req : Request) (d : Decision) : Type 0 where
  pub project : ProjectRow
  pub project_at : facts.base.project ≡ some project
  pub cycle : CycleRow
  pub cycle_at : cycle_for facts req ≡ ok cycle
  pub scope : Scope
  pub scope_at : scope_for insp req project cycle ≡ ok scope
  pub clear : Clear insp facts req scope d

module _ (insp : Inspectors) (facts : Facts) (req : Request) (d : Decision) where
  abbrev ClearFor : ProjectRow → CycleRow → Type 0
  ClearFor project cycle =
      (scope : Scope) × (scope_for insp req project cycle ≡ ok scope) × Clear insp facts req scope d

  for_cycle-ClearFor :
      (project : ProjectRow) (cycle : CycleRow)
      → (for_cycle insp facts req project (ok cycle) ≡ ok ([], d)) ↔ ClearFor project cycle
  for_cycle-ClearFor project cycle = (
    λ h.
        let (scope, s, k) = >>=-eq-ok (scope_for insp req project cycle) _ h in
        (scope, s, (in_scope_iff insp facts req scope project d).0 k),
    λ (scope, s, c). rw s ((in_scope_iff insp facts req scope project d).1 c),
  )

  ClearFor-at : (p q : ProjectRow) (c e : CycleRow) → p ≡ q → c ≡ e → ClearFor p c → ClearFor q e
  ClearFor-at p q c e s t k = subst (λ x. ClearFor q x) t (subst (λ x. ClearFor x c) s k)

  to_Allowed :
      (project : ProjectRow) (cycle : CycleRow)
      → facts.base.project ≡ some project
      → cycle_for facts req ≡ ok cycle
      → ClearFor project cycle
      → Allowed insp facts req d
  to_Allowed project cycle p e (scope, s, c) = record {
    project = project;
    project_at = p;
    cycle = cycle;
    cycle_at = e;
    scope = scope;
    scope_at = s;
    clear = c;
  }

  some_same : (p q : ProjectRow) → facts.base.project ≡ some q → facts.base.project ≡ some p → p ≡ q
  some_same p q s t = cc

  ok_same : (c e : CycleRow) → cycle_for facts req ≡ ok e → cycle_for facts req ≡ ok c → c ≡ e
  ok_same c e s t = cc

  from_Allowed :
      (project : ProjectRow) (cycle : CycleRow)
      → facts.base.project ≡ some project
      → cycle_for facts req ≡ ok cycle
      → Allowed insp facts req d
      → ClearFor project cycle
  from_Allowed project cycle p e a =
      ClearFor-at a.project project a.cycle cycle (some_same a.project project p a.project_at)
        (ok_same a.cycle cycle e a.cycle_at) (a.scope, a.scope_at, a.clear)

  refused : (raised : Error) → ok (without raised) ≡ ok ([], d) → ⊥
  refused raised h = cons_not_nil _ _ (ap (λ x. x.0) (ok-injective h))

  for_cycle_iff :
      (project : ProjectRow) (r : Result CycleRow)
      → facts.base.project ≡ some project
      → cycle_for facts req ≡ r
      → (for_cycle insp facts req project r ≡ ok ([], d)) ↔ Allowed insp facts req d
  for_cycle_iff project (err raised) p e = (
    λ h. absurd (refused raised h),
    λ a. absurd (err_not_ok raised a.cycle (cycle_for facts req) e a.cycle_at),
  )
  for_cycle_iff project (ok cycle) p e =
      let (f, g) = for_cycle-ClearFor project cycle in
      (λ h. to_Allowed project cycle p e (f h), λ a. g (from_Allowed project cycle p e a))

  for_project_iff :
      (o : Option ProjectRow)
      → facts.base.project ≡ o
      → (for_project insp facts req o ≡ ok ([], d)) ↔ Allowed insp facts req d
  for_project_iff none e = (
    λ h. absurd (refused project_missing h),
    λ a. absurd (none_not_some a.project facts.base.project e a.project_at),
  )
  for_project_iff (some project) e = for_cycle_iff project (cycle_for facts req) e refl

-- The policy reports no issue exactly if the project is initialized and has a cycle, the candidate is
-- given or can be read, the decision is that of the trust policy on the facts of the delivery, it
-- allows the delivery, the project revision is valid and the cycle open, the requirements graph, the
-- validations and the proofs of acceptance are in order where they are asked for, no artifact is
-- stale, each failure mode above low is accepted, exempt or covered by a structured execution, each
-- finding above low is settled, and the latest gate passes at the current revision with a working
-- tree that could be read and is clean, where it has a head and the evaluation is not historical.
pub evaluate_local_delivery_policy-nil_iff :
    (insp : Inspectors) (facts : Facts) (req : Request) (d : Decision)
    → (evaluate_local_delivery_policy insp facts req ≡ ok ([], d)) ↔ Allowed insp facts req d
unfolding evaluate_local_delivery_policy
evaluate_local_delivery_policy-nil_iff insp facts req d =
    for_project_iff insp facts req d facts.base.project refl

-- What the policy clears is the scope of the project and of its cycle.
pub Clear-of_done :
    (insp : Inspectors) (facts : Facts) (req : Request) (d : Decision) (project : ProjectRow)
    (cycle : CycleRow)
    → evaluate_local_delivery_policy insp facts req ≡ ok ([], d)
    → facts.base.project ≡ some project
    → cycle_for facts req ≡ ok cycle
    → (scope : Scope) × (scope_for insp req project cycle ≡ ok scope) × Clear insp facts req scope d
Clear-of_done insp facts req d project cycle done p e =
    from_Allowed insp facts req d project cycle p e
      ((evaluate_local_delivery_policy-nil_iff insp facts req d).0 done)
