-- ===== src/Metrics/Timely.antt =====
-- When `_time_to_delivery_metric` of core/outcome_metrics.py has a value, and of which delivery.
use kafa.Base.{
  ℕ, suc, ◌+◌, ◌-◌, ◌≤◌, ◌<◌, String, ◌≡◌, refl, sym, ap, ◌∙◌, subst, Bool, true, false, not,
  Option, none, some, List, inl, inr, ◌↔◌, Bool-cases, arith, nat_eq, leb, and-eq-true_iff,
}
use kafa.Base.Values.{str, pos, negsuc}
use kafa.Base.Members.{In}
use kafa.Ledger.{CycleRow}
use kafa.Metrics.Times.{
  parse_timestamp, Clock, DeliveryRow, count, valid_times, least, verified_delivery_rows,
}
use kafa.Metrics.Counts.{created}
use kafa.Metrics.Earliest.{least-In, valid_times-row, all_readable}
use kafa.Metrics.Elapsed.{
  Interval, interval, time_metric, time_available, elapsed, is_duration, by_report, seconds_if,
  seconds, counted_seconds, time_to_delivery_metric,
}

-- The delivery times can be read, and the first one is neither before the start of the cycle nor
-- after the end of the report.
pub record Timely (i : Interval) (n : ℕ) : Type 0 where
  pub start : ℕ
  pub start_at : i.start ≡ some start
  pub last : ℕ
  pub last_at : i.last ≡ some last
  pub delivered : 0 < i.deliveries
  pub readable : i.readable ≡ i.deliveries
  pub report : ℕ
  pub report_at : i.report ≡ some report
  pub by_end : last ≤ report
  pub duration : last ≡ start + n

elapsed-duration :
    (a b : Option ℕ)
    → is_duration (elapsed a b) ≡ true
    → (x : ℕ) × (y : ℕ) × (a ≡ some x)
      × (b ≡ some y)
      × (x ≤ y)
      × (seconds (elapsed a b) ≡ some (y - x))
elapsed-duration none b h = cc
elapsed-duration (some x) none h = cc
elapsed-duration (some x) (some y) h = elim (Bool-cases (leb x y)) [
  | inl e ↦ (x, y, refl, refl, ordered x y e, rw e refl)
  | inr e ↦ absurd (negative (x - suc y) (rw e at h))
]
  where
    ordered : (m n : ℕ) → leb m n ≡ true → m ≤ n
    ordered m n q = ground arith

    negative : (z : ℕ) → is_duration (some (negsuc z)) ≡ true → ⊥
    negative z q = cc

by_report-values :
    (a b : Option ℕ)
    → by_report a b ≡ true
    → (x : ℕ) × (y : ℕ) × (a ≡ some x) × (b ≡ some y) × (x ≤ y)
by_report-values none b h = cc
by_report-values (some x) none h = cc
by_report-values (some x) (some y) h = (x, y, refl, refl, ground arith)

module _ (clock : Clock) (cycle_id : String) (i : Interval) (n : ℕ) where
  count-value :
      (b : Bool)
      → counted_seconds (seconds_if b (elapsed i.start i.last)) ≡ some (count n)
      → (b ≡ true) × (seconds (elapsed i.start i.last) ≡ some n)
  count-value false h = cc
  count-value true h = (refl, same (seconds (elapsed i.start i.last)) h)
    where
      same : (o : Option ℕ) → counted_seconds o ≡ some (count n) → o ≡ some n
      same none q = cc
      same (some k) q = cc

  Timely-of_value : (time_metric clock cycle_id i).value ≡ some (count n) → Timely i n
  Timely-of_value h =
      let (available, value) = count-value (time_available i) h in
      let (e, h₁) = (and-eq-true_iff (is_duration (elapsed i.start i.last)) _).0 available in
      let (d, h₂) = (and-eq-true_iff (not (nat_eq i.deliveries 0)) _).0 h₁ in
      let (v, r) =
        (and-eq-true_iff (nat_eq i.readable i.deliveries) (by_report i.last i.report)).0 h₂ in
      let (x, y, a, b, le, s) = elapsed-duration i.start i.last e in
      let (z, w, c, f, le₁) = by_report-values i.last i.report r in
      record {
        start = x;
        start_at = a;
        last = y;
        last_at = b;
        delivered = positive i.deliveries d;
        readable = same i.readable i.deliveries v;
        report = w;
        report_at = f;
        by_end = subst (λ k. k ≤ w) (some_same (sym c ∙ b)) le₁;
        duration = sum x y n le (some_same (sym s ∙ value));
      }
    where
      positive : (k : ℕ) → not (nat_eq k 0) ≡ true → 0 < k
      positive k q = ground arith

      same : (j k : ℕ) → nat_eq j k ≡ true → j ≡ k
      same j k q = ground arith

      some_same : {j k : ℕ} → some j ≡ some k → j ≡ k
      some_same q = cc

      sum : (x y m : ℕ) → x ≤ y → y - x ≡ m → y ≡ x + m
      sum x y m p q = omega arith

  value-of_Timely : Timely i n → (time_metric clock cycle_id i).value ≡ some (count n)
  value-of_Timely t =
      let seconds_at : elapsed i.start i.last ≡ some (pos n) =
        rw (t.start_at, t.last_at, t.duration) (rw (leb_sum t.start n, sub_sum t.start n) refl) in
      rw seconds_at (
        rw
          (
            positive i.deliveries t.delivered,
            t.readable,
            same i.deliveries,
            t.last_at,
            t.report_at,
            ordered t.last t.report t.by_end,
          )
          refl)
    where
      leb_sum : (x m : ℕ) → leb x (x + m) ≡ true
      leb_sum x m = ground arith

      sub_sum : (x m : ℕ) → (x + m) - x ≡ m
      sub_sum x m = omega arith

      positive : (k : ℕ) → 0 < k → nat_eq k 0 ≡ false
      positive k q = ground arith

      same : (k : ℕ) → nat_eq k k ≡ true
      same k = ground arith

      ordered : (x y : ℕ) → x ≤ y → leb x y ≡ true
      ordered x y q = ground arith

-- The value of the time to delivery is n seconds exactly if the interval that it measures is timely
-- and takes n seconds.
pub time_to_delivery_metric-value_iff :
    (clock : Clock) (rows : List DeliveryRow) (cycle : CycleRow) (generated_at : String) (n : ℕ)
    → ((time_to_delivery_metric clock rows cycle generated_at).value ≡ some (count n))
      ↔ Timely (interval clock rows cycle generated_at) n
unfolding time_to_delivery_metric
time_to_delivery_metric-value_iff clock rows cycle generated_at n =
    let i = interval clock rows cycle generated_at in
    (Timely-of_value clock cycle.id i n, value-of_Timely clock cycle.id i n)

-- If the time to delivery is n seconds, the start of the cycle can be read, a verified delivery of
-- the cycle is n seconds after it, and each other one has a time that can be read and is no earlier.
pub time_to_delivery_metric-first :
    (clock : Clock) (rows : List DeliveryRow) (cycle : CycleRow) (generated_at : String) (n : ℕ)
    → (time_to_delivery_metric clock rows cycle generated_at).value ≡ some (count n)
    → (start : ℕ) × (parse_timestamp clock (str cycle.started_at) ≡ some start)
      × ((r : DeliveryRow) × In r (verified_delivery_rows rows cycle.id)
          × (created clock r ≡ some (start + n)))
      × ((r : DeliveryRow)
          → In r (verified_delivery_rows rows cycle.id)
          → (t : ℕ) × (created clock r ≡ some t) × (start + n ≤ t))
unfolding interval
time_to_delivery_metric-first clock rows cycle generated_at n h =
    let t = (time_to_delivery_metric-value_iff clock rows cycle generated_at n).0 h in
    let deliveries = verified_delivery_rows rows cycle.id in
    let at : least (valid_times (created clock) deliveries) ≡ some (t.start + n) =
      t.last_at ∙ ap some t.duration in
    let (m, low) = least-In (valid_times (created clock) deliveries) at in
    (
      t.start,
      t.start_at,
      valid_times-row (created clock) deliveries m,
      λ r k.
          let (u, e, i) = all_readable (created clock) deliveries t.readable k in (u, e, low u i),
    )
