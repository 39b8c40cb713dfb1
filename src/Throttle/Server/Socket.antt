-- ===== src/Throttle/Server/Socket.antt =====
-- `Serve` of `src/throttle/server.go` around its handlers. The functions of `net` and `net/http`
-- are a record of actions on a socket `S`; `serve_http` runs the routes and the ticks.
use bosh_lxd_cpi_release.Base.{String}
use bosh_lxd_cpi_release.Base.Go.{M, Done, ◌>>=◌}
use bosh_lxd_cpi_release.Throttle.Server.{ThrottleServer}

pub record Sockets (W S : Type 0) : Type 0 where
  pub listen : String → String → M W S
  pub close : S → M W Done
  pub serve_http : S → ThrottleServer → M W Done

-- `defer socket.Close()`: the result of the closing is dropped.
unfoldable pub closing : {W S A : Type 0} → Sockets W S → S → M W A → M W A
closing sockets socket m w = let (r, w') = m w in (r, (sockets.close socket w').1)

unfoldable pub listen_and_serve : {W S : Type 0} → Sockets W S → ThrottleServer → M W Done
unfolding closing
listen_and_serve sockets ts = do
  socket ← sockets.listen "unix" ts.path
  closing sockets socket (sockets.serve_http socket ts)
