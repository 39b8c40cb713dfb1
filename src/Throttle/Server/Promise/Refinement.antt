-- ===== src/Throttle/Server/Promise/Refinement.antt =====
-- The server of `src/throttle/server.go` keeps its promise.
use bosh_lxd_cpi_release.Base.{
  ℕ, ◌≤◌, ◌<◌, ◌≡◌, refl, String, Option, some, List, [], ◌∷◌, length, ◌==◌, arith, eq_iff,
  Bool-cases, true, false, inl, inr, Option-cases, sym, ◌∙◌, ap, ◌<>◌,
}
use bosh_lxd_cpi_release.Base.Dict.{Dict, lookup, insert, erase, lookup-insert, lookup-erase}
use bosh_lxd_cpi_release.Base.Go.{Returned-cases}
use bosh_lxd_cpi_release.Throttle.Server.{
  ThrottleServer, Event, with_id, transactions_root, tick, method_get, method_post, method_delete,
  Outside, Response, handle_transaction_with_id, handle_transactions, serve, unexpired,
  expire_transactions, is_full, add_transaction, list_transactions, delete_transaction,
  other_method,
}
use bosh_lxd_cpi_release.Throttle.Server.Transactions.{
  NodupKeys, kept, lookup-expire_transactions, lookup-unexpired_absent,
}
use bosh_lxd_cpi_release.Throttle.Server.Promise.{
  Held, Lists, holding, releasing, expiring, answers, Promise, Promises, created, too_many,
  not_made, listed, not_listed, ended, unknown, unnamed, not_allowed, not_allowed_with_id, ticked,
  over, then_on, answered, answered_all,
}
use bosh_lxd_cpi_release.Throttle.Server.Limit.{serve_all}

pub NodupKeys-insert : (k : String) (v : ℕ) (d : Dict ℕ) → NodupKeys d → NodupKeys (insert k v d)
unfolding insert lookup
NodupKeys-insert k v [] h = (refl, tt)
NodupKeys-insert k v ((j, w) ∷ d) h =
    ground (arith, eq_iff j k, eq_iff k j, NodupKeys-insert k v d h.1, lookup-insert k j v d)

pub NodupKeys-erase : (k : String) (d : Dict ℕ) → NodupKeys d → NodupKeys (erase k d)
unfolding erase
NodupKeys-erase k [] h = tt
NodupKeys-erase k ((j, w) ∷ d) h =
    ground (arith, eq_iff j k, eq_iff k j, NodupKeys-erase k d h.1, lookup-erase k j d)

pub NodupKeys-unexpired :
    (hold : ℕ) (now : String → ℕ) (d : Dict ℕ) → NodupKeys d → NodupKeys (unexpired hold now d)
unfolding unexpired
NodupKeys-unexpired hold now [] h = tt
NodupKeys-unexpired hold now ((j, w) ∷ d) h =
    ground (arith, NodupKeys-unexpired hold now d h.1, lookup-unexpired_absent hold now d j)

-- That an answer, with the server after it, keeps the promise.
abbrev Keeps : Event → ThrottleServer → Held → Option Response × ThrottleServer → Type 0
Keeps e ts held (answer, ts') =
    (held' : Held) × Promise ts.limit ts.hold_duration e held answer held'
    × Lists held' ts'.transactions

abbrev answering : Response × ThrottleServer → Option Response × ThrottleServer
answering (r, ts) = (some r, ts)

is_full-true : (ts : ThrottleServer) → is_full ts ≡ true → ts.limit ≤ length ts.transactions
unfolding is_full
is_full-true ts h = grind arith

is_full-false : (ts : ThrottleServer) → is_full ts ≡ false → length ts.transactions < ts.limit
unfolding is_full
is_full-false ts h = grind arith

Keeps-by :
    (e : Event) (ts : ThrottleServer) (held : Held) (out : Response × ThrottleServer) (status : ℕ)
    (body : String) (ts' : ThrottleServer)
    → out ≡ (record { status = status; body = body }, ts')
    → Keeps e ts held (answers status body, ts')
    → Keeps e ts held (answering out)
Keeps-by e ts held out status body ts' same h = rw same h

add-Keeps :
    (o : Outside) (ts : ThrottleServer) (held : Held)
    → Lists held ts.transactions
    → length ts.transactions < ts.limit
    → Keeps (transactions_root o method_post) ts held (answering (add_transaction o ts))
unfolding add_transaction
add-Keeps o ts held lists room = elim (Returned-cases o.generated) [
  | inl (id, e) ↦
      Keeps-by (transactions_root o method_post) ts held (add_transaction o ts) 201 id
        (record ts { transactions = insert id o.now ts.transactions }) (ground arith)
        (
          holding id o.now held,
          created ts.transactions lists room e,
          (
            NodupKeys-insert id o.now ts.transactions lists.0,
            λ j. ground (arith, lookup-insert id j o.now ts.transactions, lists.1 j),
          ),
        )
  | inr (x, e) ↦
      Keeps-by (transactions_root o method_post) ts held (add_transaction o ts) 500
        (o.error_text x <> "\n") ts (ground arith)
        (held, not_made ts.transactions lists room (λ id h. cc), lists)
]

post-Keeps :
    (o : Outside) (ts : ThrottleServer) (held : Held)
    → Lists held ts.transactions
    → Keeps
        (transactions_root o method_post)
        ts
        held
        (answering (handle_transactions o method_post ts))
unfolding handle_transactions
post-Keeps o ts held lists = elim (Bool-cases (is_full ts)) [
  | inl full ↦ rw full (held, too_many ts.transactions lists (is_full-true ts full), lists)
  | inr room ↦ rw room (add-Keeps o ts held lists (is_full-false ts room))
]

get-Keeps :
    (o : Outside) (ts : ThrottleServer) (held : Held)
    → Lists held ts.transactions
    → Keeps (transactions_root o method_get) ts held (answering (list_transactions o ts))
unfolding list_transactions
get-Keeps o ts held lists = elim (Returned-cases (o.marshal ts.transactions)) [
  | inl (bytes, e) ↦
      Keeps-by (transactions_root o method_get) ts held (list_transactions o ts) 200 bytes ts
        (ground arith) (held, listed ts.transactions lists e, lists)
  | inr (x, e) ↦
      Keeps-by (transactions_root o method_get) ts held (list_transactions o ts) 500
        (o.error_text x <> "\n") ts (ground arith)
        (held, not_listed ts.transactions lists (λ bytes h. cc), lists)
]

delete-Keeps :
    (id : String) (ts : ThrottleServer) (held : Held)
    → Lists held ts.transactions
    → Keeps (with_id method_delete id) ts held (answering (delete_transaction id ts))
unfolding delete_transaction
delete-Keeps id ts held lists = elim (Bool-cases (id == "")) [
  | inl no_name ↦ rw no_name (held, unnamed (ground (arith, eq_iff id "")), lists)
  | inr named ↦ elim (Option-cases (lookup id ts.transactions)) [
    | inl absent ↦
        rw (named, absent)
          (held, unknown (ground (arith, eq_iff id "")) (sym (lists.1 id) ∙ absent), lists)
    | inr (start, found) ↦
        rw (named, found)
          (
            releasing id held,
            ended (ground (arith, eq_iff id "")) (sym (lists.1 id) ∙ found),
            (
              NodupKeys-erase id ts.transactions lists.0,
              λ j. ground (arith, lookup-erase id j ts.transactions, lists.1 j),
            ),
          )
  ]
]

serve-Keeps :
    (e : Event) (ts : ThrottleServer) (held : Held)
    → Lists held ts.transactions
    → Keeps e ts held (answered e ts, serve e ts)
unfolding serve handle_transaction_with_id handle_transactions expire_transactions
serve-Keeps (with_id method_delete id) ts held lists = delete-Keeps id ts held lists
serve-Keeps (with_id method_get id) ts held lists = (held, not_allowed_with_id (λ e. cc), lists)
serve-Keeps (with_id method_post id) ts held lists = (held, not_allowed_with_id (λ e. cc), lists)
serve-Keeps (with_id (other_method m) id) ts held lists =
    (held, not_allowed_with_id (λ e. cc), lists)
serve-Keeps (transactions_root o method_post) ts held lists = post-Keeps o ts held lists
serve-Keeps (transactions_root o method_get) ts held lists = get-Keeps o ts held lists
serve-Keeps (transactions_root o method_delete) ts held lists =
    (held, not_allowed (λ e. cc) (λ e. cc), lists)
serve-Keeps (transactions_root o (other_method m)) ts held lists =
    (held, not_allowed (λ e. cc) (λ e. cc), lists)
serve-Keeps (tick now) ts held (once, same) = (
  expiring ts.hold_duration now held,
  ticked,
  (
    NodupKeys-unexpired ts.hold_duration now ts.transactions once,
    λ j. lookup-expire_transactions now ts j once ∙ ap (kept ts.hold_duration (now j)) (same j),
  ),
)

serve-settings :
    (e : Event) (ts : ThrottleServer)
    → ((serve e ts).limit ≡ ts.limit) × ((serve e ts).hold_duration ≡ ts.hold_duration)
unfolding serve handle_transaction_with_id handle_transactions expire_transactions
    delete_transaction add_transaction list_transactions
serve-settings (with_id method_delete id) ts = ground arith
serve-settings (with_id _ id) ts = (refl, refl)
serve-settings (transactions_root o method_post) ts = ground arith
serve-settings (transactions_root o method_get) ts = ground arith
serve-settings (transactions_root o _) ts = (refl, refl)
serve-settings (tick now) ts = (refl, refl)

run-Promises :
    (events : List Event) (ts : ThrottleServer) (held : Held) (limit hold : ℕ)
    → Lists held ts.transactions
    → ts.limit ≡ limit
    → ts.hold_duration ≡ hold
    → (held' : Held) × Promises limit hold events held (answered_all events ts) held'
      × Lists held' (serve_all events ts).transactions
run-Promises [] ts held limit hold lists same same' = (held, over, lists)
run-Promises (e ∷ events) ts held limit hold lists same same' =
    let (mid, step, lists') = serve-Keeps e ts held lists in
    let (same_limit, same_hold) = serve-settings e ts in
    let (held', run, lists'') =
      run-Promises events (serve e ts) mid limit hold lists' (same_limit ∙ same)
        (same_hold ∙ same') in
    (held', then_on (rw⁻¹ (same, same') step) run, lists'')

-- The server implements its promise: from a server that stores no id twice, any sequence of
-- requests and ticks is answered as the promise says of the map from ids to start times, and what
-- is stored at the end lists the map that the promise ends with.
pub serve_all-Promises :
    (events : List Event) (ts : ThrottleServer) (held : Held)
    → Lists held ts.transactions
    → (held' : Held) × Promises ts.limit ts.hold_duration events held (answered_all events ts) held'
      × Lists held' (serve_all events ts).transactions
serve_all-Promises events ts held lists =
    run-Promises events ts held ts.limit ts.hold_duration lists refl refl
