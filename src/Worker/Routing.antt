-- ===== src/Worker/Routing.antt =====
-- Which Durable Object a request reaches.
use headfwd.Common.{◌≡◌, false, Text, arith, ◌↔◌}
use headfwd.Fingerprint.Hosts.{Carries, extract_fingerprint_iff}
use headfwd.Http.{Request}
use headfwd.Platform.{Platform}
use headfwd.Registration.State.{State}
use headfwd.Worker.{Draws, to_object, route_host, is_localhost, fetch}

route_host_iff : (h f : Text) → is_localhost h ≡ false → (route_host h ≡ to_object f) ↔ Carries h f
unfolding route_host
route_host_iff h f remote = ground (arith, extract_fingerprint_iff h f)

module _ (p : Platform) where
  -- On a host other than the local ones, a request that the Worker passes on to the object named f
  -- leaves the state as it is, and the host carries the fingerprint f.
  pub fetch-to_object :
      (secret : Text) (d : Draws p) (req : Request) (st s : State p) (f : Text)
      → fetch p secret d req st ≡ (s, to_object f)
      → is_localhost req.hostname ≡ false
      → (s ≡ st) × Carries req.hostname f
  unfolding fetch
  fetch-to_object secret d req st s f h remote =
      ground (arith, route_host_iff req.hostname f remote)
