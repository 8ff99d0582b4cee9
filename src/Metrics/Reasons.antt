-- ===== src/Metrics/Reasons.antt =====
-- When `_time_to_delivery_metric` of core/outcome_metrics.py gives no reason.
use kafa.Base.{
  ℕ, String, ◌≡◌, refl, Bool, true, false, Option, none, some, List, inl, inr, ◌↔◌, Bool-cases,
  arith, nat_eq, leb, ltb,
}
use kafa.Ledger.{CycleRow}
use kafa.Metrics.Times.{Clock, DeliveryRow, insufficient_data}
use kafa.Metrics.Rates.{status_if}
use kafa.Metrics.Elapsed.{Interval, interval, time_available, time_reason, time_to_delivery_metric}

-- There are verified deliveries, whose times can all be read, the first is not before the start of
-- the cycle, and the end of the report cannot be read.
pub record Unreported (i : Interval) : Type 0 where
  pub delivered : nat_eq i.deliveries 0 ≡ false
  pub readable : nat_eq i.readable i.deliveries ≡ true
  pub start : ℕ
  pub start_at : i.start ≡ some start
  pub last : ℕ
  pub last_at : i.last ≡ some last
  pub ordered : leb start last ≡ true
  pub report : i.report ≡ none

-- The reason, and whether there is a value, by what is known of the times.
module _ (start last report : Option ℕ) (deliveries readable : ℕ) where
  abbrev whole : Interval
  whole = record {
    start = start;
    last = last;
    report = report;
    deliveries = deliveries;
    readable = readable;
  }

  counts_known :
      time_reason whole ≡ "" → (nat_eq deliveries 0 ≡ false) × (nat_eq readable deliveries ≡ true)
  counts_known h = elim (Bool-cases (nat_eq deliveries 0)) [
    | inl a ↦ absurd (cc (rw a at h))
    | inr a ↦ elim (Bool-cases (nat_eq readable deliveries)) [
      | inl b ↦ (a, b)
      | inr b ↦ absurd (cc (rw (a, b) at h))
    ]
  ]

Unreported-of_times :
    (start last report : Option ℕ) (deliveries readable : ℕ)
    → nat_eq deliveries 0 ≡ false
    → nat_eq readable deliveries ≡ true
    → time_reason (whole start last report deliveries readable) ≡ ""
    → time_available (whole start last report deliveries readable) ≡ false
    → Unreported (whole start last report deliveries readable)
Unreported-of_times none last report d r a b h n = absurd (cc (rw (a, b) at h))
Unreported-of_times (some s) none report d r a b h n = absurd (cc (rw (a, b) at h))
Unreported-of_times (some s) (some l) none d r a b h n = elim (Bool-cases (leb s l)) [
  | inl e ↦ record {
    delivered = a;
    readable = b;
    start = s;
    start_at = refl;
    last = l;
    last_at = refl;
    ordered = e;
    report = refl;
  }
  | inr e ↦ absurd (cc (rw (a, b, e) at h))
]
Unreported-of_times (some s) (some l) (some t) d r a b h n = elim (Bool-cases (leb s l)) [
  | inr e ↦ absurd (cc (rw (a, b, e) at h))
  | inl e ↦ elim (Bool-cases (ltb t l)) [
    | inl f ↦ absurd (cc (rw (a, b, e, f) at h))
    | inr f ↦ absurd (cc (rw (a, b, e, by_then l t f) at n))
  ]
]
  where
    by_then : (x y : ℕ) → ltb y x ≡ false → leb x y ≡ true
    by_then x y q = ground arith

-- The metric is insufficient data and gives no reason for it exactly if the cycle has verified
-- deliveries whose times can all be read, the first of them is not before the start of the cycle,
-- and the end of the report cannot be read.
pub time_to_delivery_metric-no_reason :
    (clock : Clock) (rows : List DeliveryRow) (cycle : CycleRow) (generated_at : String)
    → (((time_to_delivery_metric clock rows cycle generated_at).status ≡ insufficient_data)
        × ((time_to_delivery_metric clock rows cycle generated_at).reason ≡ ""))
      ↔ Unreported (interval clock rows cycle generated_at)
unfolding time_to_delivery_metric
time_to_delivery_metric-no_reason clock rows cycle generated_at =
    let i = interval clock rows cycle generated_at in
    (
      λ (s, h).
          let (a, b) = counts_known i.start i.last i.report i.deliveries i.readable h in
          Unreported-of_times i.start i.last i.report i.deliveries i.readable a b h
            (unavailable (time_available i) s),
      unreported i,
    )
  where
    unavailable : (b : Bool) → status_if b ≡ insufficient_data → b ≡ false
    unavailable true h = cc
    unavailable false h = refl

    unreported :
        (i : Interval)
        → Unreported i
        → (status_if (time_available i) ≡ insufficient_data) × (time_reason i ≡ "")
    unreported i u =
        rw (u.delivered, u.readable, u.start_at, u.last_at, u.report) (rw u.ordered (refl, refl))
