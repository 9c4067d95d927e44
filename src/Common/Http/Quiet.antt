-- ===== src/Common/Http/Quiet.antt =====
-- The HTTP helpers do not touch the library.
use urma_rs.Base.{ℕ, zero, suc, refl, some, none, arith, Option}
use urma_rs.Error.{Result, ok, err}
use urma_rs.Ffi.World.{World}
use urma_rs.Urma.Release.{held}
use urma_rs.Urma.Release.Scope.{Same, Same-trans}
use urma_rs.Common.Desc.{PeerDesc}
use urma_rs.Common.Http.{
  Http, Net, NetIo, continue, send, paused, send_retry, json_retry, exchange_desc,
}

module _ {Q L A B : Type 0} where
  pub then_net-Same :
      (r : Option (Result A)) (f : A → NetIo Q L B) (w : World) (n : Net Q L)
      → Same w n.world
      → ((a : A) → Same n.world (f a n).1.world)
      → Same w (continue r f n).1.world
  then_net-Same none f w n h k = h
  then_net-Same (some (ok a)) f w n h k = Same-trans w n.world (f a n).1.world h (k a)
  then_net-Same (some (err e)) f w n h k = h

module _ {Q L B : Type 0} (http : Http Q B) where
  pub send_retry-Same :
      (fuel : ℕ) (q : Q) (n : Net Q L) → Same n.world (send_retry http fuel q n).1.world
  unfolding send_retry held
  send_retry-Same zero q n = (refl, refl)
  send_retry-Same (suc fuel) q n =
      ground (arith, send_retry-Same fuel q (paused http (send http q n)))

  pub json_retry-Same :
      {T : Type 0} (parse : B → Option T) (fuel : ℕ) (q : Q) (n : Net Q L)
      → Same n.world (json_retry http parse fuel q n).1.world
  unfolding json_retry
  json_retry-Same parse fuel q n =
      let got = send_retry http fuel q n in
      then_net-Same got.0 _ n.world got.1 (send_retry-Same fuel q n) (λ b. ground arith)

  pub exchange_desc-Same :
      (parse : B → Option PeerDesc) (info : Q) (announce : PeerDesc → Q) (fuel : ℕ) (my : PeerDesc)
      (n : Net Q L)
      → Same n.world (exchange_desc http parse info announce fuel my n).1.world
  unfolding exchange_desc
  exchange_desc-Same parse info announce fuel my n =
      let got = json_retry http parse fuel info n in
      then_net-Same got.0 _ n.world got.1 (json_retry-Same parse fuel info n) (λ peer.
        let told = send_retry http fuel (announce my) got.1 in
        then_net-Same told.0 _ got.1.world told.1 (send_retry-Same fuel (announce my) got.1)
          (λ u. (refl, refl)))
