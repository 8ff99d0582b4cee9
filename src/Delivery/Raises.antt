-- ===== src/Delivery/Raises.antt =====
-- When `_evaluate_local_delivery_policy` of core/delivery.py raises.
use kafa.Base.{◌≡◌, true, false, none, some, List, ◌⊎◌, String}
use kafa.Ledger.{ProjectRow, CycleRow, Error, ok, err}
use kafa.Cycle.{current_cycle_row}
use kafa.Delivery.Facts.{Facts, GateRow, Inspectors, Request, Scope}
use kafa.Delivery.Checks.{PolicyIssue, graph_issues, has_requirements, latest_gate}
use kafa.Delivery.Policy.{cycle_for, scope_for}

module _ (insp : Inspectors) (facts : Facts) (req : Request) (e : Error) where
  -- The graph is asked for and the cycle has requirements, and their trace raises, or it does not and
  -- the baseline does as there is no current cycle.
  abbrev pub GraphRaises : Scope → Type 0
  GraphRaises scope =
      (req.include_graph_issues ≡ true)
      × ((has_requirements facts.base scope.cycle.id ≡ true)
          × ((insp.traceability_issues ≡ err e)
              ⊎ ((traces : List String) × (insp.traceability_issues ≡ ok traces)
                  × (current_cycle_row facts.base ≡ err e))))

  -- There is a gate, the evaluation is of the present, the working tree has a head, and whether it is
  -- dirty cannot be read.
  abbrev pub TreeRaises : Scope → Type 0
  TreeRaises scope =
      (g : GateRow) × (latest_gate insp facts scope ≡ some g)
      × ((req.historical ≡ false) × ((insp.has_head ≡ true) × (insp.git_dirty ≡ err e)))

  -- The candidate is not given and cannot be read, or it is known and the graph raises, or the graph
  -- does not and the working tree does.
  abbrev pub CycleRaises : ProjectRow → CycleRow → Type 0
  CycleRaises project cycle =
      (req.candidate_override ≡ none) × (insp.current_candidate_sha ≡ err e)
      ⊎ ((scope : Scope) × (scope_for insp req project cycle ≡ ok scope)
          × (GraphRaises scope
              ⊎ ((graph : List PolicyIssue) × (graph_issues insp facts req scope ≡ ok graph)
                  × TreeRaises scope)))

  -- The project is initialized and has a cycle, and the evaluation for them raises.
  abbrev pub Raises : Type 0
  Raises =
      (project : ProjectRow) × (facts.base.project ≡ some project)
      × ((cycle : CycleRow) × (cycle_for facts req ≡ ok cycle) × CycleRaises project cycle)
