-- ===== src/Registration/Attempts.antt =====
-- Refused attempts at the second phase, with a namespace.
use headfwd.Common.{◌≡◌, ◌≢◌, refl, ap, ◌∙◌, some, List, [], ◌∷◌}
use headfwd.Http.{Request, Response}
use headfwd.Platform.{Platform}
use headfwd.Registration.State.{State, registered}
use headfwd.Registration.Verify.{VerifyDraw, handle_register_verify}
use headfwd.Registration.Credentials.{find_challenge_keeps}
use headfwd.Registration.Outcome.{Outcome, refused, looked, proven, handle_register_verify-Outcome}

module _ (p : Platform) where
  -- A sequence of requests of the second phase.
  unfoldable pub attempts : List (VerifyDraw p × Request) → State p → State p
  attempts [] st = st
  attempts ((v, req) ∷ rs) st = attempts rs (handle_register_verify p v req st).0

  -- On this state, none of them is accepted.
  abbrev pub AllRefused : State p → List (VerifyDraw p × Request) → Type 0
  AllRefused st [] = Unit
  AllRefused st ((v, req) ∷ rs) =
      ((handle_register_verify p v req st).1.status ≢ 200) × AllRefused st rs

  Outcome-eq :
      (v : VerifyDraw p) (req : Request) (st s : State p) (r : Response) (kv : p.Store)
      → st.registry ≡ some kv
      → r.status ≢ 200
      → Outcome p v req st s r
      → s ≡ st
  unfolding registered
  Outcome-eq v req st s r kv e bad (refused same _) = same
  Outcome-eq v req st s r kv e bad (looked f same _) = same ∙ find_challenge_keeps p st kv v.now f e
  Outcome-eq v req st s r kv e bad (proven f text proof c _ _ _ _ _ reply) =
      absurd (bad (ap (λ (x : Response). x.status) reply))

  -- With a namespace, any number of refused attempts leave the state as it is, so that a challenge
  -- survives every wrong proof.
  pub refused_attempts_keep :
      (rs : List (VerifyDraw p × Request)) (st : State p) (kv : p.Store)
      → st.registry ≡ some kv
      → AllRefused st rs
      → attempts rs st ≡ st
  unfolding attempts
  refused_attempts_keep [] st kv e h = refl
  refused_attempts_keep ((v, req) ∷ rs) st kv e (bad, h) =
      ap (attempts rs)
        (Outcome-eq v req st _ _ kv e bad (handle_register_verify-Outcome p v req st))
      ∙ refused_attempts_keep rs st kv e h
