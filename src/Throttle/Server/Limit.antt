-- ===== src/Throttle/Server/Limit.antt =====
-- The limit of `src/throttle/server.go`, for events that are served one after the other.
use bosh_lxd_cpi_release.Base.{ℕ, suc, ◌≤◌, ◌<◌, String, List, [], ◌∷◌, length, arith}
use bosh_lxd_cpi_release.Base.Dict.{Dict, insert, erase}
use bosh_lxd_cpi_release.Throttle.Server.{
  ThrottleServer, Event, with_id, transactions_root, tick, Method, method_get, method_post,
  method_delete, Outside, unexpired, add_transaction, handle_transaction_with_id,
  handle_transactions, serve,
}

length-insert : (k : String) (v : ℕ) (d : Dict ℕ) → length (insert k v d) ≤ suc (length d)
unfolding insert
length-insert k v [] = omega arith
length-insert k v ((j, w) ∷ d) = ground (arith, length-insert k v d)

length-erase : (k : String) (d : Dict ℕ) → length (erase k d) ≤ length d
unfolding erase
length-erase k [] = omega arith
length-erase k ((j, w) ∷ d) = ground (arith, length-erase k d)

length-unexpired :
    (hold : ℕ) (now : String → ℕ) (d : Dict ℕ) → length (unexpired hold now d) ≤ length d
unfolding unexpired
length-unexpired hold now [] = omega arith
length-unexpired hold now ((k, v) ∷ d) = ground (arith, length-unexpired hold now d)

abbrev pub IsWithinLimit : ThrottleServer → Type 0
IsWithinLimit ts = length ts.transactions ≤ ts.limit

delete-IsWithinLimit :
    (m : Method) (id : String) (ts : ThrottleServer)
    → IsWithinLimit ts
    → IsWithinLimit (handle_transaction_with_id m id ts).1
unfolding handle_transaction_with_id
delete-IsWithinLimit method_delete id ts h = ground (arith, length-erase id ts.transactions)
delete-IsWithinLimit method_get id ts h = h
delete-IsWithinLimit _ id ts h = h

add-IsWithinLimit :
    (o : Outside) (ts : ThrottleServer)
    → length ts.transactions < ts.limit
    → IsWithinLimit (add_transaction o ts).1
unfolding add_transaction
add-IsWithinLimit o ts h = grind (arith, length-insert)

root-IsWithinLimit :
    (o : Outside) (m : Method) (ts : ThrottleServer)
    → IsWithinLimit ts
    → IsWithinLimit (handle_transactions o m ts).1
unfolding handle_transactions
root-IsWithinLimit o method_get ts h = ground arith
root-IsWithinLimit o method_post ts h = ground (arith, add-IsWithinLimit o ts)
root-IsWithinLimit o _ ts h = h

serve_step : (e : Event) (ts : ThrottleServer) → IsWithinLimit ts → IsWithinLimit (serve e ts)
unfolding serve
serve_step (with_id m id) ts h = delete-IsWithinLimit m id ts h
serve_step (transactions_root o m) ts h = root-IsWithinLimit o m ts h
serve_step (tick now) ts h = ground (arith, length-unexpired ts.hold_duration now ts.transactions)

abbrev pub serve_all : List Event → ThrottleServer → ThrottleServer
serve_all [] ts = ts
serve_all (e ∷ events) ts = serve_all events (serve e ts)

-- A throttle server within its limit stays within it over any sequence of requests and ticks that
-- are served one after the other.
pub serve_all-IsWithinLimit :
    (events : List Event) (ts : ThrottleServer)
    → IsWithinLimit ts
    → IsWithinLimit (serve_all events ts)
serve_all-IsWithinLimit [] ts h = h
serve_all-IsWithinLimit (e ∷ events) ts h =
    serve_all-IsWithinLimit events (serve e ts) (serve_step e ts h)
