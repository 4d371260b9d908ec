-- ===== src/Shell/SecondRuns.antt =====
-- Which commands of an and-or list the fallback of internal/shell/executor.go runs.
use honeypot_go.Base.{
  ℕ, ◌≡◌, refl, ap, ◌∙◌, Bool, false, not, Option, none, some, List, [], ◌∷◌, ◌++◌, if◌then◌else◌,
  Bytes, ◌==◌, Bool-cases, inl, inr, same, All, append-nil,
}
use honeypot_go.Shell.Text.{trim_space}
use honeypot_go.Shell.Syntax.{Connective, and_then_run, or_else_run}
use honeypot_go.Shell.Eval.{Done, cap_out}
use honeypot_go.Shell.Fallback.{
  is_quote, LogicToken, and_or_tokens, exec_pipeline, operator_at, push_token, logic_from,
  split_logical, run_and_or,
}
use honeypot_go.Shell.AndOr.{operator_text}

-- No quote, no & and no | in it.
abbrev pub IsPlain : Bytes → Type 0
IsPlain s = All (λ c. (is_quote c ≡ false) × ((c == b'&') ≡ false) × ((c == b'|') ≡ false)) s

-- The commands behind the first one, each with the operator in front of it, as text and as tokens.
abbrev pub behind_text : List (Connective × Bytes) → Bytes
behind_text [] = []
behind_text ((op, text) ∷ cs) = operator_text (some op) ++ (text ++ behind_text cs)

abbrev pub behind_tokens : List (Connective × Bytes) → List LogicToken
behind_tokens [] = []
behind_tokens ((op, text) ∷ cs) = (some op, text) ∷ behind_tokens cs

abbrev pub ArePlain : List (Connective × Bytes) → Type 0
ArePlain [] = Unit {0}
ArePlain ((op, text) ∷ cs) = IsPlain text × ArePlain cs

plain_operator : (c d : ℕ) → (c == b'&') ≡ false → (c == b'|') ≡ false → operator_at c d ≡ none
plain_operator c d h k = rw (h, k) refl

-- A plain byte is put in front of the first token of what stands behind it.
logic_from-plain :
    (op : Option Connective) (c d : ℕ) (s : Bytes)
    → (is_quote c ≡ false) × ((c == b'&') ≡ false) × ((c == b'|') ≡ false)
    → logic_from none (c ∷ d ∷ s) op ≡ push_token c (logic_from none (d ∷ s) op)
unfolding logic_from
logic_from-plain op c d s h = rw (plain_operator c d h.1 h.2, h.0) refl

logic_from-word :
    (op : Option Connective) (text : Bytes)
    → IsPlain text
    → logic_from none text op ≡ (op, text) ∷ []
unfolding logic_from
logic_from-word op [] h = refl
logic_from-word op (c ∷ []) h = refl
logic_from-word op (c ∷ d ∷ s) h =
    logic_from-plain op c d s h.0 ∙ ap (push_token c) (logic_from-word op (d ∷ s) h.1)

logic_from-operator :
    (op : Option Connective) (next : Connective) (more : Bytes)
    → logic_from none (operator_text (some next) ++ more) op
      ≡ (op, []) ∷ logic_from none more (some next)
unfolding logic_from
logic_from-operator op and_then_run more = refl
logic_from-operator op or_else_run more = refl

logic_from-joined :
    (op : Option Connective) (text : Bytes) (next : Connective) (more : Bytes)
    → IsPlain text
    → logic_from none (text ++ (operator_text (some next) ++ more)) op
      ≡ (op, text) ∷ logic_from none more (some next)
logic_from-joined op [] next more h = logic_from-operator op next more
logic_from-joined op (c ∷ []) and_then_run more h =
    logic_from-plain op c b'&' (b'&' ∷ more) h.0
    ∙ ap (push_token c) (logic_from-joined op [] and_then_run more h.1)
logic_from-joined op (c ∷ []) or_else_run more h =
    logic_from-plain op c b'|' (b'|' ∷ more) h.0
    ∙ ap (push_token c) (logic_from-joined op [] or_else_run more h.1)
logic_from-joined op (c ∷ d ∷ s) next more h =
    logic_from-plain op c d (s ++ (operator_text (some next) ++ more)) h.0
    ∙ ap (push_token c) (logic_from-joined op (d ∷ s) next more h.1)

logic_from-behind :
    (op : Option Connective) (text : Bytes) (cs : List (Connective × Bytes))
    → IsPlain text
    → ArePlain cs
    → logic_from none (text ++ behind_text cs) op ≡ (op, text) ∷ behind_tokens cs
logic_from-behind op text [] h k =
    ap (λ (s : Bytes). logic_from none s op) (append-nil text) ∙ logic_from-word op text h
logic_from-behind op text ((next, second) ∷ cs) h k =
    logic_from-joined op text next (second ++ behind_text cs) h
    ∙ ap (λ (ts : List LogicToken). (op, text) ∷ ts)
        (logic_from-behind (some next) second cs k.0 k.1)

-- Does the list end behind a command with this operator in front of it and this exit code?
abbrev pub ends_behind : Connective → ℕ → Bool
ends_behind and_then_run code = not (code == 0)
ends_behind or_else_run code = code == 0

module _ {World : Type 0} (exec_one : Bytes → List Bytes → Bytes → World → Done World) where
  -- What a list leaves from its second command on.
  abbrev pub second_on : Connective → Bytes → List (Connective × Bytes) → Done World → World
  second_on op second cs d =
      let e = exec_pipeline exec_one d.cwd (trim_space second) (cap_out d.out) d.world in
      if ends_behind op e.code
      then e.world
      else (and_or_tokens exec_one e.cwd e.code (behind_tokens cs) (cap_out e.out) e.world).world

  -- In the fallback reading of a list first && second … or first || second …, with any commands
  -- behind them, of which none holds a quote, an & or a | and the first two are not blank, the
  -- second command runs behind the first whatever the exit code of the first is. Behind the
  -- second the list goes on with the others, unless the second fails behind && or succeeds
  -- behind ||: then its state is what the list leaves.
  pub run_and_or-second_on :
      (op : Connective) (first second : Bytes) (cs : List (Connective × Bytes)) (cwd out : Bytes)
      (w : World)
      → IsPlain first
      → IsPlain second
      → ArePlain cs
      → same (trim_space first) [] ≡ false
      → same (trim_space second) [] ≡ false
      → (run_and_or exec_one cwd (first ++ behind_text ((op, second) ∷ cs)) out w).world
        ≡ second_on op second cs (exec_pipeline exec_one cwd (trim_space first) out w)
  unfolding run_and_or and_or_tokens split_logical
  run_and_or-second_on and_then_run first second cs cwd out w v u us h k =
      let d = exec_pipeline exec_one cwd (trim_space first) out w in
      let e = exec_pipeline exec_one d.cwd (trim_space second) (cap_out d.out) d.world in
      rw (logic_from-behind none first ((and_then_run, second) ∷ cs) v (u, us), h, k)
        (elim (Bool-cases (e.code == 0)) [ inl t ↦ rw t refl | inr t ↦ rw t refl ])
  run_and_or-second_on or_else_run first second cs cwd out w v u us h k =
      let d = exec_pipeline exec_one cwd (trim_space first) out w in
      let e = exec_pipeline exec_one d.cwd (trim_space second) (cap_out d.out) d.world in
      rw (logic_from-behind none first ((or_else_run, second) ∷ cs) v (u, us), h, k)
        (elim (Bool-cases (e.code == 0)) [ inl t ↦ rw t refl | inr t ↦ rw t refl ])
