-- ===== src/Tests/ThrottleRuns.antt =====
-- A server of the throttle with room for two transactions.
use bosh_lxd_cpi_release.Base.{
  ℕ, ◌+◌, ◌≡◌, refl, String, none, some, List, [], ◌∷◌, ◌++◌, arith, eq_iff, ◌==◌, if◌then◌else◌,
  Option, false, true, inl, inr,
}
use bosh_lxd_cpi_release.Cmd.Run.GivesBack.{site_calls, run_cpi-GivesBack}
use bosh_lxd_cpi_release.Cmd.Run.{run_cpi}
use bosh_lxd_cpi_release.Cpi.Factory.{CpiFactory, new_factory}
use bosh_lxd_cpi_release.Config.{Config, default_config}
use bosh_lxd_cpi_release.Throttle.Together.Turn.{GetsTurn, lock_and_wait-GetsTurn}
use bosh_lxd_cpi_release.Throttle.Together.{Site, Others, site_client, site_sleep}
use bosh_lxd_cpi_release.Throttle.Server.Promise.Order.{answered_all-same}
use bosh_lxd_cpi_release.Throttle.Server.Promise.Refinement.{serve_all-Promises}
use bosh_lxd_cpi_release.Throttle.Server.Promise.{Held, Lists, Promises, answered_all}
use bosh_lxd_cpi_release.Base.Dict.{lookup}
use bosh_lxd_cpi_release.Base.Go.{ok, Result, M, Done}
use bosh_lxd_cpi_release.Throttle.Server.{
  ThrottleServer, Event, with_id, transactions_root, tick, method_post, method_delete, Outside,
  is_full, handle_transactions, handle_transaction_with_id,
}
use bosh_lxd_cpi_release.Throttle.Server.Limit.{IsWithinLimit, serve_all, serve_all-IsWithinLimit}
use bosh_lxd_cpi_release.Throttle.Server.Transactions.{post_delete}
use bosh_lxd_cpi_release.Throttle.Client.{
  HttpReply, response, lock_and_wait, unlock, lock_and_wait_at_most,
}
use bosh_lxd_cpi_release.Throttle.Client.Waiting.{total_sleep, lock_and_wait-first}
use bosh_lxd_cpi_release.Tests.Fixtures.{text_of}

abbrev small_server : ThrottleServer
small_server = record {
  path = "/tmp/throttle.sock";
  hold_duration = 60;
  limit = 2;
  transactions = ("t1", 100) ∷ [];
}

abbrev generating : String → ℕ → Outside
generating id now = record {
  error_text = text_of;
  marshal = λ d. inr "{}";
  generated = inr id;
  now = now;
}

abbrev three_posts : List Event
three_posts =
    transactions_root (generating "t2" 110) method_post
    ∷ transactions_root (generating "t3" 120) method_post
    ∷ tick (λ id. 165)
    ∷ with_id method_delete "t2"
    ∷ []

serve_all-IsWithinLimit_example : IsWithinLimit (serve_all three_posts small_server)
serve_all-IsWithinLimit_example = serve_all-IsWithinLimit three_posts small_server (omega arith)

post_delete_example :
    let (posted, ts') = handle_transactions (generating "t2" 110) method_post small_server in
    let (deleted, ts'') = handle_transaction_with_id method_delete "t2" ts' in
    (posted ≡ record { status = 201; body = "t2" })
    × (lookup "t2" ts'.transactions ≡ some 110)
    × (deleted ≡ record { status = 204; body = "" })
    × (ts'' ≡ small_server)
    × (handle_transaction_with_id method_delete "t2" ts''
        ≡ (record { status = 404; body = "" }, small_server))
unfolding is_full lookup
post_delete_example = post_delete (generating "t2" 110) small_server refl refl (λ e. cc) refl

abbrev busy : HttpReply
busy = response 429 (inr "Too many requests\n")

lock_and_wait-first_example :
    lock_and_wait 0 ((busy ∷ []) ++ (response 201 (inr "t9") ∷ busy ∷ []))
    ≡ some (ok "t9", 0 + total_sleep ((busy, 10) ∷ []))
lock_and_wait-first_example =
    lock_and_wait-first ((busy, 10) ∷ []) (response 201 (inr "t9")) (busy ∷ []) 0
      (inl (refl, refl), tt) (refl, refl)

-- The server with its transactions in one order and in the other.
abbrev full_server : ThrottleServer
full_server = record small_server { transactions = ("t1", 100) ∷ ("t2", 90) ∷ [] }

abbrev turned_server : ThrottleServer
turned_server = record small_server { transactions = ("t2", 90) ∷ ("t1", 100) ∷ [] }

serve_all-Promises_example :
    (held' : Held) × Promises 2 60 three_posts
      (λ k. lookup k (("t1", 100) ∷ []))
      (answered_all three_posts small_server)
      held'
    × Lists held' (serve_all three_posts small_server).transactions
unfolding lookup
serve_all-Promises_example =
    serve_all-Promises three_posts small_server (λ k. lookup k (("t1", 100) ∷ []))
      ((refl, tt), λ k. refl)

either_order :
    (a b k : String) (v w : Option ℕ)
    → (a == b) ≡ false
    → (if a == k then v else if b == k then w else none)
      ≡ (if b == k then w else if a == k then v else none)
either_order a b k v w different = ground (arith, eq_iff a k, eq_iff b k, eq_iff a b)

turned-same : (k : String) → lookup k full_server.transactions ≡ lookup k turned_server.transactions
unfolding lookup
turned-same k = either_order "t1" "t2" k (some 100) (some 90) refl

answered_all-same_example :
    answered_all three_posts full_server ≡ answered_all three_posts turned_server
unfolding lookup
answered_all-same_example =
    answered_all-same three_posts full_server turned_server
      (refl, refl, (refl, (refl, tt)), (refl, (refl, tt)), turned-same) (tt, (tt, (tt, (tt, tt))))

abbrev ten_seconds_site : Site
ten_seconds_site = record {
  server = record {
    path = "/tmp/throttle.sock";
    hold_duration = 25000000000;
    limit = 1;
    transactions = ("t1", 5) ∷ [];
  };
  clock = 7;
}

abbrev nobody_ends : Others
nobody_ends = record {
  generate = λ now. "t9";
  ending = λ now. [];
  ticking = λ now. now + 3000000000;
  error_text = text_of;
  marshal = λ d. inr "{}";
  id_of_url = λ url. url;
}

lock_and_wait-GetsTurn_example : GetsTurn nobody_ends 5 ten_seconds_site 40000000007
lock_and_wait-GetsTurn_example =
    lock_and_wait-GetsTurn nobody_ends (λ now. omega arith) ten_seconds_site (omega arith)
      (omega arith, tt)

abbrev throttled : Config
throttled = record default_config {
  throttle_config = record { enabled = true; path = "/tmp/t.sock"; limit = 1; hold = "25s" };
}

abbrev served_at_once : CpiFactory → M Site Done
served_at_once f s = (ok tt, s)

abbrev as_they_are : String → String → Result String
as_they_are root name = ok name

run_cpi-GivesBack_example :
    (turn v w' : Site) × (lookup (nobody_ends.generate turn.clock) turn.server.transactions
      ≡ some turn.clock)
    × (lock_and_wait_at_most (site_sleep nobody_ends) (site_client nobody_ends) 5 ten_seconds_site
        ≡ (ok (some (nobody_ends.generate turn.clock)), turn))
    × (served_at_once (new_factory throttled) turn ≡ (ok tt, v))
    × (unlock as_they_are (site_client nobody_ends) (nobody_ends.generate turn.clock) v
        ≡ (ok tt, w'))
    × (run_cpi
          (site_calls nobody_ends as_they_are served_at_once 5)
          (λ s. (ok throttled, s))
          ten_seconds_site
        ≡ (ok 0, w'))
    × (lookup (nobody_ends.generate turn.clock) w'.server.transactions ≡ none)
run_cpi-GivesBack_example =
    run_cpi-GivesBack nobody_ends as_they_are served_at_once (λ s. (ok throttled, s)) throttled
      ten_seconds_site ten_seconds_site refl refl (omega arith) (omega arith, tt) (λ s. (s, refl))
      (λ id. (id, refl, refl)) (λ now. omega arith) (λ now e. cc)
