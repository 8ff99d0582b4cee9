-- ===== src/Metrics/Coherent.antt =====
-- Each outcome metric of core/outcome_metrics.py has a value exactly if it is not insufficient.
use kafa.Base.Values.{ℤ, pos, negsuc}
use kafa.Base.{
  sym, ◌∙◌, length, ℕ, String, ◌≡◌, ◌≢◌, refl, Bool, true, false, not, ◌&&◌, ◌||◌, Option, none,
  some, List, [], ◌∷◌, ◌⊎◌, inl, inr, All, Bool-cases, arith, if◌then◌else◌, is_empty, nat_eq,
  and-eq-true_iff, not-eq-true, is_some,
}
use kafa.Ledger.{CycleRow}
use kafa.Metrics.Times.{
  verified_delivery_rows, cycle_as_of_window, ratio, Clock, Window, ObservationRow, DeliveryRow,
  Metric, insufficient_data, observed, computed, Quantity, count,
}
use kafa.Metrics.Counts.{
  total, facts_of, post_delivery_window, count_metric, escaped_metric, counted, uncounted,
  observation_count_metric, escaped_defect_metric,
}
use kafa.Metrics.Rates.{
  rework_metric, rework_available, share_metric, status_if, rework_rate_metric,
  recovery_success_metric,
}
use kafa.Metrics.Elapsed.{
  Interval, time_metric, time_available, elapsed, is_duration, seconds, is_negative, by_report,
  after_report, time_to_delivery_metric,
}
use kafa.Metrics.Coverage.{TargetRow, qualification_coverage_metric}
use kafa.Metrics.Inventory.{Store, build_outcome_metrics}

-- A metric without a value, and one with a value: over a complete window, with a numerator and no
-- reason against it.
pub record HasNoValue (m : Metric) : Type 0 where
  pub status : m.status ≡ insufficient_data
  pub value : m.value ≡ none

pub record HasValue (m : Metric) : Type 0 where
  pub status : m.status ≢ insufficient_data
  pub quantity : Quantity
  pub value : m.value ≡ some quantity
  pub numerator : is_some m.numerator ≡ true
  pub complete : m.window.complete ≡ true
  pub reason : m.reason ≡ ""

abbrev pub IsCoherent : Metric → Type 0
IsCoherent m = HasNoValue m ⊎ HasValue m

absent : {m : Metric} → m.status ≡ insufficient_data → m.value ≡ none → IsCoherent m
absent s v = inl (record { status = s; value = v })

observed_known : observed ≢ insufficient_data
observed_known e = cc

computed_known : computed ≢ insufficient_data
computed_known e = cc

-- The two ways that a count of observations ends.
counting-IsCoherent :
    (nothing : Bool) (window : Window) (reason : String) (n : ℕ) (facts : List ObservationRow)
    → IsCoherent
        (if nothing || not window.complete then uncounted window reason n else counted window facts)
counting-IsCoherent true window reason n facts = absent refl refl
counting-IsCoherent false window reason n facts = elim (Bool-cases window.complete) [
  | inr e ↦ rw e (absent refl refl)
  | inl e ↦ rw e (
      inr (record {
        status = observed_known;
        quantity = _;
        value = refl;
        numerator = refl;
        complete = refl;
        reason = refl;
      }))
]

count_metric-IsCoherent :
    (kind : String) (window : Window) (facts : List ObservationRow)
    → IsCoherent (count_metric kind window facts)
count_metric-IsCoherent kind window facts =
    counting-IsCoherent (is_empty facts) window
      (Prim.Native.String.◌++◌ "no valid "
        (Prim.Native.String.◌++◌ kind " observation window for the current cycle"))
      (length facts) facts

escaped_metric-IsCoherent :
    (deliveries : List DeliveryRow) (window : Window) (facts : List ObservationRow)
    → IsCoherent (escaped_metric deliveries window facts)
escaped_metric-IsCoherent deliveries window facts =
    counting-IsCoherent (is_empty facts) window
      (if is_empty deliveries
        then "the current cycle has no verified delivery for a post-delivery window"
        else if not window.complete
        then "the post-delivery observation window is invalid"
        else "no escaped-defect observation exists in the post-delivery window")
      (length facts) facts

-- The shape of the metrics with a denominator: whether they are available decides.
Available : Bool → Metric → Type 0
Available available m =
    (m.status ≡ status_if available)
    × (available ≡ false → m.value ≡ none)
    × (available ≡ true
        → ((q : Quantity) × (m.value ≡ some q))
          × (is_some m.numerator ≡ true)
          × (m.window.complete ≡ true)
          × (m.reason ≡ ""))

Available-IsCoherent : (available : Bool) (m : Metric) → Available available m → IsCoherent m
unfolding Available
Available-IsCoherent false m (s, v, h) = absent s (v refl)
Available-IsCoherent true m (s, v, h) =
    let ((q, e), n, c, r) = h refl in
    inr (record {
      status = λ t. computed_known (sym s ∙ t);
      quantity = q;
      value = e;
      numerator = n;
      complete = c;
      reason = r;
    })

rework-Available :
    (window : Window) (facts : List ObservationRow) (denominator : ℕ) (times_valid : Bool)
    → Available
        (rework_available facts denominator window times_valid)
        (rework_metric window facts denominator times_valid)
unfolding Available
rework-Available window [] denominator times_valid = (refl, (λ _. refl), (λ h. cc))
rework-Available window (f ∷ fs) denominator times_valid = (
  refl,
  λ h. rw h refl,
  λ h.
      let (d, h₁) = (and-eq-true_iff _ _).0 h in
      let (c, t) = (and-eq-true_iff _ _).0 h₁ in
      (
        (ratio (total (f ∷ fs)) denominator, rw h refl),
        refl,
        c,
        rw (not-eq-true (nat_eq denominator 0) d, c, t) refl,
      ),
)

share-Available :
    (numerator denominator : ℕ) (reason : String) (window : Window)
    → Available
        (not (nat_eq denominator 0) && window.complete)
        (share_metric numerator denominator reason window)
unfolding Available
share-Available n d reason window = (
  refl,
  λ h. rw h refl,
  λ h.
      let (p, c) = (and-eq-true_iff _ _).0 h in
      ((ratio n d, rw h refl), rw (not-eq-true (nat_eq d 0) p) refl, c, rw h refl),
)

duration_seconds :
    (z : Option ℤ) → is_duration z ≡ true → (n : ℕ) × (seconds z ≡ some n) × (is_negative z ≡ false)
duration_seconds none h = cc
duration_seconds (some (pos n)) h = (n, refl, refl)
duration_seconds (some (negsuc n)) h = cc

both_given :
    (a b : Option ℕ) → is_duration (elapsed a b) ≡ true → (is_some a ≡ true) × (is_some b ≡ true)
both_given none b h = cc
both_given (some x) none h = cc
both_given (some x) (some y) h = (refl, refl)

not_after : (a b : Option ℕ) → by_report a b ≡ true → after_report a b ≡ false
not_after none b h = refl
not_after (some x) none h = refl
not_after (some x) (some y) h = ground arith

time-Available :
    (clock : Clock) (cycle_id : String) (i : Interval)
    → Available (time_available i) (time_metric clock cycle_id i)
unfolding Available
time-Available clock cycle_id i = (
  refl,
  λ h. rw h refl,
  λ h.
      let (e, h₁) = (and-eq-true_iff (is_duration (elapsed i.start i.last)) _).0 h in
      let (d, h₂) = (and-eq-true_iff (not (nat_eq i.deliveries 0)) _).0 h₁ in
      let (v, r) =
        (and-eq-true_iff (nat_eq i.readable i.deliveries) (by_report i.last i.report)).0 h₂ in
      let (n, q, p) = duration_seconds (elapsed i.start i.last) e in
      let (a, b) = both_given i.start i.last e in
      (
        (count n, rw h (rw q refl)),
        rw h (rw q refl),
        h,
        rw (not-eq-true (nat_eq i.deliveries 0) d, v, a, b, p, not_after i.last i.report r) refl,
      ),
)

rework-IsCoherent :
    (window : Window) (facts : List ObservationRow) (denominator : ℕ) (times_valid : Bool)
    → IsCoherent (rework_metric window facts denominator times_valid)
rework-IsCoherent window facts n b = Available-IsCoherent _ _ (rework-Available window facts n b)

-- Of each of the six metrics: either it is insufficient data and has no value, or it has a value,
-- over a complete window, with a numerator and with no reason against it.
pub build_outcome_metrics-IsCoherent :
    (clock : Clock) (digest : TargetRow → String) (store : Store) (cycle : CycleRow)
    (observations : List ObservationRow) (generated_at : String)
    → All
        (λ (entry : String × Metric). IsCoherent entry.1)
        (build_outcome_metrics clock digest store cycle observations generated_at)
unfolding build_outcome_metrics observation_count_metric escaped_defect_metric rework_rate_metric
    recovery_success_metric time_to_delivery_metric qualification_coverage_metric
build_outcome_metrics-IsCoherent clock digest store cycle observations generated_at =
    let window = cycle_as_of_window clock cycle generated_at in
    let deliveries = verified_delivery_rows store.deliveries cycle.id in
    let after = post_delivery_window clock deliveries cycle.id generated_at in
    (
      count_metric-IsCoherent "false-green-prevented" window
          (facts_of clock "false-green-prevented" window observations),
      (
        escaped_metric-IsCoherent deliveries after
            (facts_of clock "escaped-defect" after observations),
        (
          rework-IsCoherent window (facts_of clock "rework" window observations) _ _,
          (
            Available-IsCoherent _ _ (share-Available _ _ _ _),
            (
              Available-IsCoherent _ _ (time-Available clock _ _),
              (Available-IsCoherent _ _ (share-Available _ _ _ _), tt),
            ),
          ),
        ),
      ),
    )
