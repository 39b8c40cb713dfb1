-- ===== src/Cmd/Run/GivesBack.antt =====
-- The process of `src/cmd/cpi/main.go` in front of the server of `src/throttle/server.go`: it
-- waits for its turn, and gives it back.
use bosh_lxd_cpi_release.Base.{
  ℕ, suc, ◌/◌, ◌≤◌, ◌<◌, ◌≡◌, ◌≢◌, refl, String, none, some, All, arith, eq_iff, true, ◌∙◌,
}
use bosh_lxd_cpi_release.Base.Dict.{lookup, lookup-erase}
use bosh_lxd_cpi_release.Base.Go.{Result, ok, panic, M, Done, lift, pure, ◌>>=◌}
use bosh_lxd_cpi_release.Config.{Config}
use bosh_lxd_cpi_release.Cpi.Factory.{CpiFactory, new_factory}
use bosh_lxd_cpi_release.Throttle.Client.{
  ThrottleClient, transactions_root, unlock, lock_and_wait_at_most,
}
use bosh_lxd_cpi_release.Throttle.Server.{
  handle_transaction_with_id, delete_transaction, ThrottleServer,
}
use bosh_lxd_cpi_release.Throttle.Together.{Site, Others, site_client, site_sleep}
use bosh_lxd_cpi_release.Throttle.Together.Turn.{lock_and_wait-GetsTurn}
use bosh_lxd_cpi_release.Cmd.Run.{Calls, exit_status, run_cpi}
use bosh_lxd_cpi_release.Cmd.Run.Turns.{run_cpi-served}

delete-releases :
    (sent id : String) (ts : ThrottleServer)
    → sent ≡ id
    → id ≢ ""
    → lookup id (delete_transaction sent ts).1.transactions ≡ none
unfolding delete_transaction
delete-releases sent id ts same named =
    ground (arith, eq_iff sent "", eq_iff sent id, lookup-erase sent id ts.transactions)

exit_status-ok :
    {W : Type 0} (m : M W Done) (w w' : W) → m w ≡ (ok tt, w') → exit_status m w ≡ (ok 0, w')
exit_status-ok m w w' h = ground arith

module _ (others : Others) (join_path : String → String → Result String)
    (serve_once : CpiFactory → M Site Done) where
  -- `LockAndWait` with a number of calls of `Lock`; more would go on to wait.
  abbrev waiting : ℕ → ThrottleClient Site → M Site String
  waiting calls client = lock_and_wait_at_most (site_sleep others) client calls >>= λ got.
      elim got [ none ↦ lift panic | some id ↦ pure id ]

  waiting-ok :
      (calls : ℕ) (w w' : Site) {id : String}
      → lock_and_wait_at_most (site_sleep others) (site_client others) calls w ≡ (ok (some id), w')
      → waiting calls (site_client others) w ≡ (ok id, w')
  waiting-ok calls w w' h = ground arith

  abbrev pub site_calls : ℕ → Calls Site
  site_calls calls = record {
    serve_once = serve_once;
    new_client = λ config w. (ok (site_client others), w);
    lock_and_wait = waiting calls;
    join_path = join_path;
  }

  -- The URL that the client makes of an id is routed with that id.
  abbrev pub RoutesBack : Type 0
  RoutesBack =
      (id : String)
      → (url : String) × (join_path transactions_root id ≡ ok url) × (others.id_of_url url ≡ id)

  unlock-releases :
      (id : String) (w : Site)
      → RoutesBack
      → id ≢ ""
      → (w' : Site) × (unlock join_path (site_client others) id w ≡ (ok tt, w'))
        × (lookup id w'.server.transactions ≡ none)
  unfolding unlock handle_transaction_with_id
  unlock-releases id w routes named =
      let (url, joined, routed) = routes id in
      (
        record w { server = (delete_transaction (others.id_of_url url) w.server).1 },
        rw joined refl,
        delete-releases (others.id_of_url url) id w.server routed named,
      )

  -- A throttled process whose request is served without an error gets its turn from a server with a
  -- limit above zero, whose transactions have all begun, while others start none and no sleep is
  -- without a tick that comes after its beginning: the wait ends in a state in which the server
  -- holds its transaction, the request is served from that state, and the process exits with 0 in
  -- the state that the end of the transaction makes of the one that the request left; there no
  -- transaction of its own is left, also where that one has expired meanwhile, if the URL made of
  -- an id is routed with that id and no id is empty.
  pub run_cpi-GivesBack :
      (load_config : M Site Config) (config : Config) (w w₁ : Site)
      → load_config w ≡ (ok config, w₁)
      → config.throttle_config.enabled ≡ true
      → 0 < w₁.server.limit
      → All (λ (entry : String × ℕ). entry.1 ≤ w₁.clock) w₁.server.transactions
      → ((s : Site) → (v : Site) × (serve_once (new_factory config) s ≡ (ok tt, v)))
      → RoutesBack
      → ((now : ℕ) → now ≤ others.ticking now)
      → ((now : ℕ) → others.generate now ≢ "")
      → let rounds = w₁.server.hold_duration / 10000000000 in
        (turn v w' : Site) × (lookup (others.generate turn.clock) turn.server.transactions
          ≡ some turn.clock)
        × (lock_and_wait_at_most
              (site_sleep others)
              (site_client others)
              (suc (suc (suc rounds)))
              w₁
            ≡ (ok (some (others.generate turn.clock)), turn))
        × (serve_once (new_factory config) turn ≡ (ok tt, v))
        × (unlock join_path (site_client others) (others.generate turn.clock) v ≡ (ok tt, w'))
        × (run_cpi (site_calls (suc (suc (suc rounds)))) load_config w ≡ (ok 0, w'))
        × (lookup (others.generate turn.clock) w'.server.transactions ≡ none)
  run_cpi-GivesBack load_config config w w₁ loaded throttled some_room begun serves routes ticks
        named =
      let rounds = w₁.server.hold_duration / 10000000000 in
      let (turn, got, early, held) = lock_and_wait-GetsTurn others ticks w₁ some_room begun in
      let (v, served) = serves turn in
      let id = others.generate turn.clock in
      let (w', unlocked, gone) = unlock-releases id v routes (named turn.clock) in
      let calls = site_calls (suc (suc (suc rounds))) in
      let ends : exit_status (unlock join_path (site_client others) id) v ≡ (ok 0, w') =
        exit_status-ok (unlock join_path (site_client others) id) v w' unlocked in
      (
        turn,
        v,
        w',
        held,
        got,
        served,
        unlocked,
        run_cpi-served calls load_config loaded throttled refl
              (waiting-ok (suc (suc (suc rounds))) w₁ turn got) (ok tt) served
            ∙ ends,
        gone,
      )
