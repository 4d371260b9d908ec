-- ===== src/Auth/Defs.antt =====
-- internal/auth/authenticator.go. The random numbers are handed in with each attempt: `extra` is
-- what rand.IntN returns, `lucky` is whether rand.Float64() is below the success probability.
use honeypot_go.Base.{
  ℕ, ◌+◌, ◌-◌, Bool, true, false, ◌&&◌, Option, none, some, List, [], ◌∷◌, if◌then◌else◌, ltb,
  Bytes, codes, same, contains_str,
}
use honeypot_go.Event.Defs.{Event, Bus, publish, new, auth_attempt, str, bool, num}

-- `Authenticator` with the fields of its configuration that it reads. `allowed` is none where every
-- user may log in.
pub record Authenticator : Type 0 where
  pub weak_passwords : List Bytes
  pub min_delay : ℕ
  pub max_delay : ℕ
  pub allowed : Option (List Bytes)

-- `New`
abbrev pub new_authenticator : List Bytes → ℕ → ℕ → Bool → List Bytes → Authenticator
new_authenticator weak lo hi restrict_users users = record {
  weak_passwords = weak;
  min_delay = lo;
  max_delay = hi;
  allowed = if restrict_users then some users else none;
}

abbrev pub is_allowed : Option (List Bytes) → Bytes → Bool
is_allowed none username = true
is_allowed (some users) username = contains_str users username

unfoldable pub user_allowed : Authenticator → Bytes → Bool
unfolding contains_str
user_allowed a username = is_allowed a.allowed username

-- What one attempt draws and when it is made.
pub record Draw : Type 0 where
  pub now : ℕ
  pub extra : ℕ
  pub lucky : Bool

-- The connection, the user and the method of an attempt.
pub record Attempt : Type 0 where
  pub conn_id : Bytes
  pub username : Bytes
  pub method : Bytes

abbrev pub attempt_event : ℕ → Attempt → Bytes → Bool → ℕ → Bytes → Event
attempt_event now t password success delay pubkey_fp = new now auth_attempt (
    (codes "connection_id", str t.conn_id)
    ∷ (codes "username", str t.username)
    ∷ (codes "password", str password)
    ∷ (codes "method", str t.method)
    ∷ (codes "success", bool success)
    ∷ (codes "delay_ms", num delay)
    ∷ (codes "pubkey_fp", str pubkey_fp)
    ∷ [])

-- `record`
unfoldable pub record_attempt : ℕ → Attempt → Bytes → Bool → ℕ → Bytes → Bus → Bus
unfolding publish
record_attempt now t password success delay pubkey_fp b =
    publish (attempt_event now t password success delay pubkey_fp) b

unfoldable pub delay_of : Authenticator → ℕ → ℕ
delay_of a extra = if ltb 0 (a.max_delay - a.min_delay) then a.min_delay + extra else a.min_delay

-- `checkPassword` and `Check`: the answer and the bus after it.
unfoldable pub check_password : Authenticator → Draw → Attempt → Bytes → Bus → Bool × Bus
unfolding user_allowed contains_str delay_of record_attempt
check_password a d t password b =
    let hit = contains_str a.weak_passwords password in
    let success = hit && (user_allowed a t.username && d.lucky) in
    (success, record_attempt d.now t password success (delay_of a d.extra) [] b)

-- The answers to a question of the challenge, or none for an error.
abbrev pub Answers : Type 0
Answers = Option (List Bytes)

abbrev pub second_round : Authenticator → Draw → Attempt → Answers → Bus → Bool × Bus
second_round a d t none b = (false, b)
second_round a d t (some []) b = (false, b)
second_round a d t (some (p ∷ ps)) b = check_password a d t p b

abbrev pub or_second : Authenticator → Draw → Attempt → Answers → Bool × Bus → Bool × Bus
or_second a d t answers (true, b) = (true, b)
or_second a d t answers (false, b) = second_round a d t answers b

abbrev pub refuse : ℕ → Attempt → Bus → Bool × Bus
refuse now t b = (false, record_attempt now t [] false 0 [] b)

-- `CheckKeyboardInteractive`: the answers of the client to the first and to the second question.
unfoldable pub check_keyboard :
    Authenticator → Draw → Draw → Attempt → Answers → Answers → Bus → Bool × Bus
unfolding check_password record_attempt same
check_keyboard a d d' t none second b = refuse d.now t b
check_keyboard a d d' t (some []) second b = refuse d.now t b
check_keyboard a d d' t (some (p ∷ ps)) second b =
    if same p [] then refuse d.now t b else or_second a d' t second (check_password a d t p b)

-- `CheckPublicKey`, with the fingerprint that package ssh computes.
unfoldable pub check_public_key : ℕ → Attempt → Bytes → Bus → Bool × Bus
unfolding record_attempt
check_public_key now t fingerprint b = (false, record_attempt now t [] false 0 fingerprint b)
