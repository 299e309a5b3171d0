-- ===== src/Worker/Sound.antt =====
-- What holds of the Worker's state after any sequence of requests.
use headfwd.Common.{List, [], ◌∷◌, Text, arith}
use headfwd.Http.{Request}
use headfwd.Platform.{Platform}
use headfwd.Registration.State.{State}
use headfwd.Registration.Sound.{IsSound}
use headfwd.Registration.Steps.{
  handle_register-IsSound, handle_register_init-IsSound, handle_register_verify-IsSound,
}
use headfwd.Worker.{Draws, fetch, serve_all}

module _ (p : Platform) where
  fetch-IsSound :
      (secret : Text) (d : Draws p) (req : Request) (st : State p)
      → IsSound p st
      → IsSound p (fetch p secret d req st).0
  unfolding fetch
  fetch-IsSound secret d req st s = ground (
    arith,
    handle_register-IsSound p secret d.now req st s,
    handle_register_init-IsSound p d.init req st s,
    handle_register_verify-IsSound p d.verify req st s,
  )

  -- After any sequence of requests to the Worker from a sound state, the state is sound: a public
  -- key that is stored for a fingerprint, in the namespace or in the local maps, with a challenge
  -- or with a registration, hashes to that fingerprint.
  pub serve_all-IsSound :
      (secret : Text) (rs : List (Draws p × Request)) (st : State p)
      → IsSound p st
      → IsSound p (serve_all p secret rs st)
  unfolding serve_all
  serve_all-IsSound secret [] st s = s
  serve_all-IsSound secret ((d, req) ∷ rs) st s =
      serve_all-IsSound secret rs (fetch p secret d req st).0 (fetch-IsSound secret d req st s)
