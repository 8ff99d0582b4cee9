-- ===== src/Delivery/Findings.antt =====
-- `_finding_blocks` of core/delivery.py. `is_expired` is an argument of the source's function.
use kafa.Base.{
  ℕ, String, ◌≡◌, refl, ap, ◌∙◌, Bool, true, false, not, ◌&&◌, ◌||◌, Option, none, some, ◌==◌, ◌⊎◌,
  inl, inr, ◌↔◌, arith, eq_iff, Bool-cases, if◌then◌else◌, nat_eq, is_some, and-eq-true_iff,
  not-eq-true,
}
use kafa.Base.Text.{strip}
use kafa.Base.Values.{Value, str, text_or_empty}
use kafa.Trust.Defs.{IsoParser, positive_integer, timestamp}

-- The columns of `findings` that are read.
pub record FindingRow : Type 0 where
  pub id : String
  pub cycle_id : String
  pub candidate_sha : String
  pub severity : String
  pub status : String
  pub waived_by : Value
  pub waiver_reason : Value
  pub waiver_scope : Value
  pub waived_revision : Value
  pub waiver_expires_at : Value

abbrev pub has_text : Value → Bool
has_text v = not (strip (text_or_empty v) == "")

unfoldable pub is_complete : FindingRow → Bool
is_complete f =
    has_text f.waived_by
    && has_text f.waiver_reason
    && has_text f.waiver_scope
    && has_text f.waiver_expires_at

-- The argument that the caller makes of the current state.
pub record Current : Type 0 where
  pub cycle_id : String
  pub candidate : String
  pub revision : ℕ

-- `complete and matches and valid_expiry and not is_expired(expiry)`
abbrev pub in_force : IsoParser → (String → Bool) → FindingRow → Current → ℕ → Bool
in_force parse is_expired f current waived_revision =
    is_complete f
    && ((f.cycle_id == current.cycle_id
          && (f.candidate_sha == current.candidate && nat_eq waived_revision current.revision))
        && (is_some (timestamp parse (str (text_or_empty f.waiver_expires_at)))
            && not (is_expired (text_or_empty f.waiver_expires_at))))

unfoldable pub waiver_blocks : IsoParser → (String → Bool) → FindingRow → Current → Option ℕ → Bool
unfolding is_complete
waiver_blocks parse is_expired f current none = true
waiver_blocks parse is_expired f current (some waived_revision) =
    not (in_force parse is_expired f current waived_revision)

unfoldable pub finding_blocks : IsoParser → (String → Bool) → FindingRow → Current → Bool
unfolding waiver_blocks
finding_blocks parse is_expired f current =
    if f.status == "resolved" || f.status == "false-positive"
    then false
    else if not (f.status == "accepted")
    then true
    else waiver_blocks parse is_expired f current (positive_integer f.waived_revision)

-- A waiver that is in force for the current cycle, candidate and revision.
pub record Waived (parse : IsoParser) (is_expired : String → Bool) (f : FindingRow)
    (current : Current) : Type 0 where
  pub complete : is_complete f ≡ true
  pub cycle : f.cycle_id ≡ current.cycle_id
  pub candidate : f.candidate_sha ≡ current.candidate
  pub revision : positive_integer f.waived_revision ≡ some current.revision
  pub dated : is_some (timestamp parse (str (text_or_empty f.waiver_expires_at))) ≡ true
  pub in_time : is_expired (text_or_empty f.waiver_expires_at) ≡ false

abbrev pub Settled : IsoParser → (String → Bool) → FindingRow → Current → Type 0
Settled parse is_expired f current =
    (f.status ≡ "resolved")
    ⊎ (f.status ≡ "false-positive")
    ⊎ (f.status ≡ "accepted") × Waived parse is_expired f current

module _ (parse : IsoParser) (is_expired : String → Bool) (f : FindingRow) (current : Current) where
  Waived-of_nil :
      (o : Option ℕ)
      → positive_integer f.waived_revision ≡ o
      → waiver_blocks parse is_expired f current o ≡ false
      → Waived parse is_expired f current
  unfolding waiver_blocks
  Waived-of_nil none e h = cc
  Waived-of_nil (some r) e h =
      let all : in_force parse is_expired f current r ≡ true =
        not-eq-false (in_force parse is_expired f current r) h in
      let (complete, all₁) = (and-eq-true_iff _ _).0 all in
      let (matches, all₂) = (and-eq-true_iff _ _).0 all₁ in
      let (dated, in_time) = (and-eq-true_iff _ _).0 all₂ in
      let (cycle, matches₁) = (and-eq-true_iff _ _).0 matches in
      let (candidate, same) = (and-eq-true_iff _ _).0 matches₁ in
      record {
        complete = complete;
        cycle = (eq_iff _ _).0 cycle;
        candidate = (eq_iff _ _).0 candidate;
        revision = e ∙ ap some (same_nat r current.revision same);
        dated = dated;
        in_time = not-eq-true _ in_time;
      }
    where
      same_nat : (m n : ℕ) → nat_eq m n ≡ true → m ≡ n
      same_nat m n q = ground arith

      not-eq-false : (b : Bool) → not b ≡ false → b ≡ true
      not-eq-false b q = ground arith

  nat_eq_same : (n : ℕ) → nat_eq n n ≡ true
  nat_eq_same n = ground arith

  not_blocked :
      Waived parse is_expired f current
      → waiver_blocks parse is_expired f current (positive_integer f.waived_revision) ≡ false
  unfolding waiver_blocks
  not_blocked w =
      rw (w.revision, w.complete, w.dated, w.in_time, nat_eq_same current.revision)
        (rw
          (
            (eq_iff f.cycle_id current.cycle_id).1 w.cycle,
            (eq_iff f.candidate_sha current.candidate).1 w.candidate,
          )
          refl)

  Settled-of_nil :
      finding_blocks parse is_expired f current ≡ false → Settled parse is_expired f current
  unfolding finding_blocks
  Settled-of_nil h = elim (Bool-cases (f.status == "resolved")) [
    | inl a ↦ inl ((eq_iff _ _).0 a)
    | inr a ↦ elim (Bool-cases (f.status == "false-positive")) [
      | inl b ↦ inr (inl ((eq_iff _ _).0 b))
      | inr b ↦ elim (Bool-cases (f.status == "accepted")) [
        | inl c ↦ inr (
            inr (
              (eq_iff _ _).0 c,
              Waived-of_nil (positive_integer f.waived_revision) refl (rw (a, b, c) at h),
            ))
        | inr c ↦ absurd (cc (rw (a, b, c) at h))
      ]
    ]
  ]

  -- A finding does not block a delivery exactly if it is resolved or a false positive, or is accepted
  -- with a complete waiver for the current cycle, candidate and revision, whose expiry can be read and
  -- has not passed.
  pub finding_blocks-eq_false_iff :
      (finding_blocks parse is_expired f current ≡ false) ↔ Settled parse is_expired f current
  unfolding finding_blocks
  finding_blocks-eq_false_iff = (Settled-of_nil, settled)
    where
      settled :
          Settled parse is_expired f current → finding_blocks parse is_expired f current ≡ false
      settled (inl e) = rw e refl
      settled (inr (inl e)) = rw e refl
      settled (inr (inr (e, w))) = rw (e, not_blocked w) refl
