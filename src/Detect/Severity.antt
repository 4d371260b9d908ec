-- ===== src/Detect/Severity.antt =====
-- `severityForScore` against the thresholds of the severity levels.
use honeypot_go.Base.{
  ℕ, ◌+◌, ◌≤◌, ◌≡◌, true, Bytes, codes, same, if◌then◌else◌, leb, arith, Bool-cases, inl, inr,
}
use honeypot_go.Detect.Rules.{severity_for_score}

-- The levels in their order.
unfoldable pub rank : Bytes → ℕ
unfolding same
rank s =
    if same s (codes "critical")
    then 3
    else if same s (codes "high")
    then 2
    else if same s (codes "medium")
    then 1
    else 0

abbrev pub reached : ℕ → ℕ → ℕ
reached limit score = if leb limit score then 1 else 0

-- The rank of the severity is the number of the thresholds 25, 50 and 80 that the score has reached.
pub rank-severity_for_score :
    (score : ℕ)
    → rank (severity_for_score score) ≡ reached 25 score + reached 50 score + reached 80 score
unfolding rank severity_for_score
rank-severity_for_score score = elim (Bool-cases (leb 80 score)) [
  | inl a ↦ rw (a, le50 a, le25 a)
  | inr a ↦ rw a (elim (Bool-cases (leb 50 score)) [
    | inl b ↦ rw (b, le25' b)
    | inr b ↦ rw b (elim (Bool-cases (leb 25 score)) [ inl c ↦ rw c | inr c ↦ rw c ])
  ])
]
  where
    le50 : leb 80 score ≡ true → leb 50 score ≡ true
    le50 h = ground arith

    le25 : leb 80 score ≡ true → leb 25 score ≡ true
    le25 h = ground arith

    le25' : leb 50 score ≡ true → leb 25 score ≡ true
    le25' h = ground arith

-- A higher score never has a lower severity.
pub severity_mono : (a b : ℕ) → a ≤ b → rank (severity_for_score a) ≤ rank (severity_for_score b)
severity_mono a b h = ground (arith, rank-severity_for_score a, rank-severity_for_score b)
