-- ===== src/Throttle/Together.antt =====
-- The client of `src/throttle/client.go` against the server of `src/throttle/server.go`. Other
-- processes end their transactions while the client sleeps, and start none.
pub mod Turn
use bosh_lxd_cpi_release.Base.{ℕ, ◌+◌, ◌*◌, String, List, [], ◌∷◌, inr, ◌⊎◌}
use bosh_lxd_cpi_release.Base.Dict.{Dict}
use bosh_lxd_cpi_release.Base.Go.{Error, Result, ok, M, Done}
use bosh_lxd_cpi_release.Throttle.Server.{
  ThrottleServer, method_post, method_delete, Outside, handle_transactions,
  handle_transaction_with_id, expire_transactions,
}
use bosh_lxd_cpi_release.Throttle.Client.{response, ThrottleClient}

abbrev pub seconds_long : ℕ → ℕ
seconds_long seconds = seconds * 1000000000

-- The server and the clock, in nanoseconds.
pub record Site : Type 0 where
  pub server : ThrottleServer
  pub clock : ℕ

-- What the site does not decide: the id that is made at a time, which transactions end during a
-- sleep that starts at a time, when the tick comes in such a sleep, the texts of the server's
-- answers, and the id that a URL is routed with.
pub record Others : Type 0 where
  pub generate : ℕ → String
  pub ending : ℕ → List String
  pub ticking : ℕ → ℕ
  pub error_text : Error → String
  pub marshal : Dict ℕ → Error ⊎ String
  pub id_of_url : String → String

abbrev pub end_all : List String → ThrottleServer → ThrottleServer
end_all [] ts = ts
end_all (id ∷ ids) ts = end_all ids (handle_transaction_with_id method_delete id ts).1

module _ (others : Others) where
  abbrev pub outside_at : ℕ → Outside
  outside_at now = record {
    error_text = others.error_text;
    marshal = others.marshal;
    generated = inr (others.generate now);
    now = now;
  }

  -- The server answers each request at once.
  abbrev pub site_client : ThrottleClient Site
  site_client = record {
    post = λ url kind body w.
        let (answer, ts) = handle_transactions (outside_at w.clock) method_post w.server in
        (ok (response answer.status (inr answer.body)), record w { server = ts });
    send_delete = λ url w.
        let (answer, ts) =
          handle_transaction_with_id method_delete (others.id_of_url url) w.server in
        (ok (response answer.status (inr answer.body)), record w { server = ts });
  }

  -- A sleep (the client's last ten seconds here, the period of the ticker): the transactions that
  -- end in it do, and there is a tick in it.
  abbrev pub after_sleep : ℕ → Site → Site
  after_sleep seconds w =
      let woken = w.clock + seconds_long seconds in
      record {
        server =
            expire_transactions (λ id. others.ticking w.clock)
              (end_all (others.ending w.clock) w.server);
        clock = woken;
      }

  abbrev pub site_sleep : ℕ → M Site Done
  site_sleep seconds w = (ok tt, after_sleep seconds w)
