-- ===== src/Shell/AndOr.antt =====
-- The parts of an and-or list that the fallback of internal/shell/executor.go reads.
use honeypot_go.Base.{
  ℕ, ◌≡◌, refl, ap, subst, ◌∙◌, true, ◌&&◌, Option, none, some, List, [], ◌∷◌, ◌++◌, Bytes, codes,
  ◌==◌, Bool-cases, inl, inr, arith,
}
use honeypot_go.Shell.Syntax.{Connective, and_then_run, or_else_run}
use honeypot_go.Shell.Fallback.{
  Quote, next_quote, LogicToken, operator_at, closed_operator, logic_step, push_token, logic_from,
  split_logical,
}

-- The texts of a list of commands, each behind its operator.
abbrev pub operator_text : Option Connective → Bytes
operator_text none = []
operator_text (some and_then_run) = codes "&&"
operator_text (some or_else_run) = codes "||"

abbrev pub tokens_text : List LogicToken → Bytes
tokens_text [] = []
tokens_text ((op, text) ∷ ts) = operator_text op ++ (text ++ tokens_text ts)

-- The first token carries the operator, and the text is put together from the others.
abbrev Begins : Option Connective → Bytes → List LogicToken → Type 0
Begins op s [] = ⊥
Begins op s ((o, text) ∷ ts) = (o ≡ op) × (text ++ tokens_text ts ≡ s)

push_token-Begins :
    (op : Option Connective) (c : ℕ) (s : Bytes) (ts : List LogicToken)
    → Begins op s ts
    → Begins op (c ∷ s) (push_token c ts)
push_token-Begins op c s [] b = absurd b
push_token-Begins op c s ((o, text) ∷ ts) b = (b.0, ap (λ (z : Bytes). c ∷ z) b.1)

tokens_text-Begins :
    (op : Option Connective) (s : Bytes) (ts : List LogicToken)
    → Begins op s ts
    → tokens_text ts ≡ operator_text op ++ s
tokens_text-Begins op s [] b = absurd b
tokens_text-Begins op s ((o, text) ∷ ts) b = rw (b.0, b.1) refl

two_bytes : (c d k : ℕ) → (c == k && d == k) ≡ true → k ∷ k ∷ [] ≡ c ∷ d ∷ []
two_bytes c d k e =
    let p : k ≡ c = ground (arith, e) in
    let q : k ≡ d = ground (arith, e) in ap (λ (x : ℕ). x ∷ k ∷ []) p ∙ ap (λ (x : ℕ). c ∷ x ∷ []) q

operator_at-text :
    (c d : ℕ) (next : Connective)
    → operator_at c d ≡ some next
    → operator_text (some next) ≡ c ∷ d ∷ []
operator_at-text c d next e = elim (Bool-cases (c == b'&' && d == b'&')) [
  | inl t ↦
      subst (λ (n : Connective). operator_text (some n) ≡ c ∷ d ∷ [])
        (cc_some and_then_run next (rw t at e)) (two_bytes c d b'&' t)
  | inr t ↦ elim (Bool-cases (c == b'|' && d == b'|')) [
    | inl u ↦
        subst (λ (n : Connective). operator_text (some n) ≡ c ∷ d ∷ [])
          (cc_some or_else_run next (rw (t, u) at e)) (two_bytes c d b'|' u)
    | inr u ↦ none_some (rw (t, u) at e)
  ]
]
  where
    cc_some : (a b : Connective) → some a ≡ some b → a ≡ b
    cc_some a b h = cc

    none_some : {A : Type 0} → ◌≡◌ {A = Option Connective} none (some next) → A
    none_some h = absurd cc

closed_operator-text :
    (q : Quote) (c d : ℕ) (next : Connective)
    → closed_operator q c d ≡ some next
    → operator_text (some next) ≡ c ∷ d ∷ []
closed_operator-text none c d next e = operator_at-text c d next e
closed_operator-text (some k) c d next e = absurd (none_some e)
  where
    none_some : ◌≡◌ {A = Option Connective} none (some next) → ⊥
    none_some h = cc

logic_step-Begins :
    (q : Quote) (c d : ℕ) (s : Bytes) (op o : Option Connective)
    (ahead : Option Connective → List LogicToken) (on : List LogicToken)
    → closed_operator q c d ≡ o
    → ((next : Option Connective) → Begins next s (ahead next))
    → Begins op (d ∷ s) on
    → Begins op (c ∷ d ∷ s) (logic_step op o c ahead on)
logic_step-Begins q c d s op none ahead on e ih b = push_token-Begins op c (d ∷ s) on b
logic_step-Begins q c d s op (some next) ahead on e ih b = (
  refl,
  tokens_text-Begins (some next) s (ahead (some next)) (ih (some next))
      ∙ ap (λ (z : Bytes). z ++ s) (closed_operator-text q c d next e),
)

logic_from-Begins :
    (q : Quote) (s : Bytes) (op : Option Connective) → Begins op s (logic_from q s op)
unfolding logic_from
logic_from-Begins q [] op = (refl, refl)
logic_from-Begins q (c ∷ []) op = (refl, refl)
logic_from-Begins q (c ∷ d ∷ s) op =
    logic_step-Begins q c d s op (closed_operator q c d) (logic_from none s)
      (logic_from (next_quote q c) (d ∷ s) op) refl (logic_from-Begins none s)
      (logic_from-Begins (next_quote q c) (d ∷ s) op)

-- The commands of an and-or list and their operators, put together again, are the list.
pub tokens_text-split_logical : (s : Bytes) → tokens_text (split_logical s) ≡ s
unfolding split_logical
tokens_text-split_logical s =
    tokens_text-Begins none s (logic_from none s none) (logic_from-Begins none s none)
