-- ===== src/Auth/Grants.antt =====
-- Who is let in, and what an observer of the answers learns of the users.
use honeypot_go.Base.{
  ℕ, ◌-◌, ◌≤◌, ◌≡◌, refl, ap, Bool, true, false, none, some, [], ◌∷◌, Bytes, same, contains_str,
  arith, Bool-cases, inl, inr, ◌⊎◌,
}
use honeypot_go.Event.Defs.{Bus}
use honeypot_go.Auth.Defs.{
  Authenticator, user_allowed, Draw, Attempt, delay_of, check_password, Answers, second_round,
  or_second, check_keyboard,
}

-- An allowed user and a weak password.
pub record MayEnter (a : Authenticator) (username password : Bytes) : Type 0 where
  pub user : user_allowed a username ≡ true
  pub weak : contains_str a.weak_passwords password ≡ true

check_password-MayEnter :
    (a : Authenticator) (d : Draw) (t : Attempt) (password : Bytes) (b : Bus)
    → (check_password a d t password b).0 ≡ true
    → MayEnter a t.username password
unfolding check_password
check_password-MayEnter a d t password b h = record {
  user = ground (arith, h);
  weak = ground (arith, h);
}

-- One of the first answers to the two questions.
abbrev pub FirstAnswer : Answers → (Bytes → Type 0) → Type 0
FirstAnswer none P = ⊥
FirstAnswer (some []) P = ⊥
FirstAnswer (some (p ∷ ps)) P = P p

second_round-MayEnter :
    (a : Authenticator) (d : Draw) (t : Attempt) (o : Answers) (b : Bus)
    → (second_round a d t o b).0 ≡ true
    → FirstAnswer o (λ p. MayEnter a t.username p)
second_round-MayEnter a d t none b h = cc
second_round-MayEnter a d t (some []) b h = cc
second_round-MayEnter a d t (some (p ∷ ps)) b h = check_password-MayEnter a d t p b h

-- The keyboard-interactive method lets a client in only if the user name is allowed and its first
-- answer to the first or to the second question is one of the weak passwords.
pub check_keyboard-MayEnter :
    (a : Authenticator) (d d' : Draw) (t : Attempt) (one two : Answers) (b : Bus)
    → (check_keyboard a d d' t one two b).0 ≡ true
    → FirstAnswer one (λ p. MayEnter a t.username p)
      ⊎ FirstAnswer two (λ p. MayEnter a t.username p)
unfolding check_keyboard
check_keyboard-MayEnter a d d' t none two b h = cc
check_keyboard-MayEnter a d d' t (some []) two b h = cc
check_keyboard-MayEnter a d d' t (some (p ∷ ps)) two b h = elim (Bool-cases (same p [])) [
  | inl e ↦ absurd (false_true (rw e at h))
  | inr e ↦ either (check_password a d t p b) refl (rw e at h)
]
  where
    false_true : false ≡ true → ⊥
    false_true q = cc

    either :
        (r : Bool × Bus)
        → check_password a d t p b ≡ r
        → (or_second a d' t two r).0 ≡ true
        → FirstAnswer (some (p ∷ ps)) (λ p. MayEnter a t.username p)
          ⊎ FirstAnswer two (λ p. MayEnter a t.username p)
    either (true, b') q k = inl (check_password-MayEnter a d t p b (ap (λ (r : Bool × Bus). r.0) q))
    either (false, b') q k = inr (second_round-MayEnter a d' t two b' k)

-- A password attempt for a user name that is not allowed has the same answer, the same recorded
-- delay and the same events as an attempt of that name with an unlucky draw, whatever the password.
pub check_password-unlucky :
    (a : Authenticator) (d : Draw) (t : Attempt) (password : Bytes) (b : Bus)
    → user_allowed a t.username ≡ false
    → check_password a d t password b ≡ check_password a (record d { lucky = false }) t password b
unfolding check_password
check_password-unlucky a d t password b h = rw h refl

-- The recorded delay lies between the limits of the configuration, if the draw is within the range
-- asked for and the limits are in order.
pub delay_of-range :
    (a : Authenticator) (extra : ℕ)
    → a.min_delay ≤ a.max_delay
    → extra ≤ a.max_delay - a.min_delay
    → (a.min_delay ≤ delay_of a extra) × (delay_of a extra ≤ a.max_delay)
unfolding delay_of
delay_of-range a extra h e = (ground (arith, h, e), ground (arith, h, e))
