-- ===== src/Throttle/Server.antt =====
-- `src/throttle/server.go`. Times and durations are nanoseconds; a hold duration is not negative. What a handler reads from
-- outside (the generated id, the clock, the JSON encoder) is an argument.
pub mod Limit
pub mod Transactions
pub mod Race
pub mod Socket
pub mod Promise
use bosh_lxd_cpi_release.Base.{
  ℕ, ◌+◌, String, Bool, none, some, [], ◌∷◌, length, ltb, leb, ◌==◌, if◌then◌else◌, ◌<>◌, ◌⊎◌, inl,
  inr,
}
use bosh_lxd_cpi_release.Base.Dict.{Dict, lookup, insert, erase}
use bosh_lxd_cpi_release.Base.Go.{
  Error, Result, ok, err, panic, M, Done, attempt, lift, pure, ◌>>=◌, ◌>>◌,
}
use bosh_lxd_cpi_release.Config.{ThrottleConfig}

pub record ThrottleServer : Type 0 where
  pub path : String
  pub hold_duration : ℕ
  pub limit : ℕ
  pub transactions : Dict ℕ

-- The methods of HTTP that the handlers tell apart.
pub data Method : Type 0 where
  method_get method_post method_delete : Method
  other_method : String → Method

pub record Response : Type 0 where
  pub status : ℕ
  pub body : String

-- `NewThrottleServer`: `exists` is `os.Stat` without an error, and `remove` is `os.Remove`, whose
-- error is dropped.
unfoldable pub new_throttle_server :
    {W : Type 0}
    → (String → Result ℕ)
    → (String → M W Bool)
    → (String → M W Done)
    → ThrottleConfig
    → M W ThrottleServer
new_throttle_server parse_duration exists remove config = do
  hold_duration ← lift (parse_duration config.hold)
  stale ← exists config.path
  if stale then attempt (remove config.path) >> pure tt else pure tt
  pure (record {
    path = config.path;
    hold_duration = hold_duration;
    limit = config.limit;
    transactions = [];
  })

-- One tick of `expireTransactions`: `now k` is the clock when the loop is at `k`.
unfoldable pub unexpired : ℕ → (String → ℕ) → Dict ℕ → Dict ℕ
unexpired hold_duration now [] = []
unexpired hold_duration now ((k, v) ∷ transactions) =
    if ltb (v + hold_duration) (now k)
    then unexpired hold_duration now transactions
    else (k, v) ∷ unexpired hold_duration now transactions

unfoldable pub expire_transactions : (String → ℕ) → ThrottleServer → ThrottleServer
unfolding unexpired
expire_transactions now ts = record ts {
  transactions = unexpired ts.hold_duration now ts.transactions;
}

abbrev answer : ℕ → String → ThrottleServer → Response × ThrottleServer
answer status body ts = (record { status = status; body = body }, ts)

abbrev method_not_allowed : ThrottleServer → Response × ThrottleServer
method_not_allowed = answer 405 "Method not allowed\n"

-- The case `http.MethodDelete` of `handleTransactionWithId`.
unfoldable pub delete_transaction : String → ThrottleServer → Response × ThrottleServer
unfolding lookup erase
delete_transaction transaction_id ts =
    if transaction_id == ""
    then answer 400 "" ts
    else elim (lookup transaction_id ts.transactions) [
      | none ↦ answer 404 "" ts
      | some start_time ↦
          answer 204 "" (record ts { transactions = erase transaction_id ts.transactions })
    ]

unfoldable pub handle_transaction_with_id :
    Method → String → ThrottleServer → Response × ThrottleServer
unfolding delete_transaction
handle_transaction_with_id method_delete transaction_id ts = delete_transaction transaction_id ts
handle_transaction_with_id _ transaction_id ts = method_not_allowed ts

-- What the handlers of `/transactions` read from outside; the generator and the encoder return.
pub record Outside : Type 0 where
  pub error_text : Error → String
  pub marshal : Dict ℕ → Error ⊎ String
  pub generated : Error ⊎ String
  pub now : ℕ

-- The two parts of the case `http.MethodPost`: the test, and what follows when it lets pass.
unfoldable pub is_full : ThrottleServer → Bool
is_full ts = leb ts.limit (length ts.transactions)

unfoldable pub add_transaction : Outside → ThrottleServer → Response × ThrottleServer
unfolding insert
add_transaction o ts = elim o.generated [
  | inr id ↦ answer 201 id (record ts { transactions = insert id o.now ts.transactions })
  | inl e ↦ answer 500 (o.error_text e <> "\n") ts
]

unfoldable pub list_transactions : Outside → ThrottleServer → Response × ThrottleServer
list_transactions o ts = elim (o.marshal ts.transactions) [
  | inr bytes ↦ answer 200 bytes ts
  | inl e ↦ answer 500 (o.error_text e <> "\n") ts
]

unfoldable pub handle_transactions : Outside → Method → ThrottleServer → Response × ThrottleServer
unfolding is_full add_transaction list_transactions
handle_transactions o method_get ts = list_transactions o ts
handle_transactions o method_post ts =
    if is_full ts then answer 429 "Too many requests\n" ts else add_transaction o ts
handle_transactions o _ ts = method_not_allowed ts

-- What reaches the server, one at a time: the routes of `Serve`, and the ticks.
pub data Event : Type 0 where
  with_id : Method → String → Event
  transactions_root : Outside → Method → Event
  tick : (String → ℕ) → Event

unfoldable pub serve : Event → ThrottleServer → ThrottleServer
unfolding handle_transaction_with_id handle_transactions expire_transactions
serve (with_id m id) ts = (handle_transaction_with_id m id ts).1
serve (transactions_root o m) ts = (handle_transactions o m ts).1
serve (tick now) ts = expire_transactions now ts
