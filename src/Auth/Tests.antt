-- ===== src/Auth/Tests.antt =====
-- Attempts at a login, and the theorems of the authenticator at them.
use honeypot_go.Base.{◌≡◌, refl, true, false, some, [], ◌∷◌, codes, same, ◌⊎◌}
use honeypot_go.Event.Defs.{Bus}
use honeypot_go.Auth.Defs.{
  Authenticator, new_authenticator, user_allowed, Draw, Attempt, check_keyboard,
}
use honeypot_go.Auth.Grants.{MayEnter, FirstAnswer, check_keyboard-MayEnter}

abbrev honeypot : Authenticator
honeypot = new_authenticator (codes "123456" ∷ codes "root" ∷ []) 50 200 true (codes "root" ∷ [])

abbrev lucky : Draw
lucky = record { now = 7; extra = 20; lucky = true }

abbrev quiet : Bus
quiet = record { subscribers = []; dropped = 0 }

abbrev as_root : Attempt
as_root = record { conn_id = codes "c"; username = codes "root"; method = codes "password" }

abbrev as_bob : Attempt
as_bob = record as_root { username = codes "bob" }

granted :
    (check_keyboard honeypot lucky lucky as_root
      (some (codes "no" ∷ []))
      (some (codes "root" ∷ []))
      quiet).0
    ≡ true
unfolding check_keyboard
granted = refl

check_keyboard-MayEnter_example :
    FirstAnswer (some (codes "no" ∷ [])) (λ p. MayEnter honeypot (codes "root") p)
    ⊎ FirstAnswer (some (codes "root" ∷ [])) (λ p. MayEnter honeypot (codes "root") p)
check_keyboard-MayEnter_example =
    check_keyboard-MayEnter honeypot lucky lucky as_root (some (codes "no" ∷ []))
      (some (codes "root" ∷ [])) quiet granted

bob_unknown : user_allowed honeypot (codes "bob") ≡ false
unfolding user_allowed same
bob_unknown = refl
