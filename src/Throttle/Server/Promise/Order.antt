-- ===== src/Throttle/Server/Promise/Order.antt =====
-- The order in which the server of `src/throttle/server.go` keeps its transactions shows in no
-- answer but the listing.
use bosh_lxd_cpi_release.Base.{
  ℕ, suc, ◌≡◌, refl, String, none, some, List, [], ◌∷◌, length, All, arith, eq_iff, ap, Bool-cases,
  Option-cases, inl, inr, sym, ◌∙◌, ◌==◌,
}
use bosh_lxd_cpi_release.Base.Go.{Returned-cases}
use bosh_lxd_cpi_release.Base.Dict.{Dict, lookup, insert, erase, lookup-insert, lookup-erase}
use bosh_lxd_cpi_release.Throttle.Server.{
  ThrottleServer, Event, with_id, transactions_root, tick, method_get, method_post, method_delete,
  other_method, Outside, handle_transaction_with_id, is_full, add_transaction, handle_transactions,
  delete_transaction, serve, list_transactions,
}
use bosh_lxd_cpi_release.Throttle.Server.Transactions.{NodupKeys, lookup-expire_transactions}
use bosh_lxd_cpi_release.Throttle.Server.Promise.{answered, answered_all}
use bosh_lxd_cpi_release.Throttle.Server.Promise.Refinement.{
  NodupKeys-insert, NodupKeys-erase, NodupKeys-unexpired,
}

-- The number of transactions does not depend on the listing.
erase-absent : (k : String) (d : Dict ℕ) → lookup k d ≡ none → erase k d ≡ d
unfolding erase lookup
erase-absent k [] h = refl
erase-absent k ((j, w) ∷ d) h = ground (arith, eq_iff j k, erase-absent k d)

length-erase_present :
    (k : String) (v : ℕ) (d : Dict ℕ)
    → NodupKeys d
    → lookup k d ≡ some v
    → suc (length (erase k d)) ≡ length d
unfolding erase lookup
length-erase_present k v [] u h = cc
length-erase_present k v ((j, w) ∷ d) u h =
    ground (arith, eq_iff j k, erase-absent k d, length-erase_present k v d u.1)

length-same :
    (d d' : Dict ℕ)
    → NodupKeys d
    → NodupKeys d'
    → ((k : String) → lookup k d ≡ lookup k d')
    → length d ≡ length d'
unfolding lookup
length-same [] [] u u' same = refl
length-same [] ((k, v) ∷ d') u u' same = ground (arith, eq_iff k k, same k)
length-same ((k, v) ∷ d) d' u u' same = omega (
  arith,
  length-erase_present k v d' u' found,
  length-same d (erase k d') u.1 (NodupKeys-erase k d' u') rest,
)
  where
    found : lookup k d' ≡ some v
    found = ground (arith, eq_iff k k, same k)

    rest : (j : String) → lookup j d ≡ lookup j (erase k d')
    rest j = ground (arith, eq_iff k j, same j, lookup-erase k j d')

-- Two servers with the same settings that store no id twice and hold the same transactions.
abbrev pub HoldSame : ThrottleServer → ThrottleServer → Type 0
HoldSame ts ts' =
    (ts.limit ≡ ts'.limit)
    × (ts.hold_duration ≡ ts'.hold_duration)
    × NodupKeys ts.transactions
    × NodupKeys ts'.transactions
    × ((k : String) → lookup k ts.transactions ≡ lookup k ts'.transactions)

is_full-same : (ts ts' : ThrottleServer) → HoldSame ts ts' → is_full ts ≡ is_full ts'
unfolding is_full
is_full-same ts ts' (limit, hold, once, once', same) =
    ground (arith, length-same ts.transactions ts'.transactions once once' same)

-- An event that asks for no listing.
abbrev pub AsksNoListing : Event → Type 0
AsksNoListing (transactions_root o method_get) = ⊥
AsksNoListing _ = Unit

answered-same :
    (e : Event) (ts ts' : ThrottleServer)
    → HoldSame ts ts'
    → AsksNoListing e
    → answered e ts ≡ answered e ts'
unfolding handle_transaction_with_id handle_transactions delete_transaction add_transaction
answered-same (with_id method_delete id) ts ts' (limit, hold, once, once', same) quiet =
    ground (arith, same id)
answered-same (with_id method_get id) ts ts' h quiet = refl
answered-same (with_id method_post id) ts ts' h quiet = refl
answered-same (with_id (other_method m) id) ts ts' h quiet = refl
answered-same (transactions_root o method_post) ts ts' h quiet =
    ground (arith, is_full-same ts ts' h)
answered-same (transactions_root o method_get) ts ts' h quiet = elim quiet [ ]
answered-same (transactions_root o method_delete) ts ts' h quiet = refl
answered-same (transactions_root o (other_method m)) ts ts' h quiet = refl
answered-same (tick now) ts ts' h quiet = refl

insert-same :
    (k : String) (v : ℕ) (d d' : Dict ℕ)
    → ((j : String) → lookup j d ≡ lookup j d')
    → (j : String) → lookup j (insert k v d) ≡ lookup j (insert k v d')
insert-same k v d d' same j = ground (arith, same j, lookup-insert k j v d, lookup-insert k j v d')

erase-same :
    (k : String) (d d' : Dict ℕ)
    → ((j : String) → lookup j d ≡ lookup j d')
    → (j : String) → lookup j (erase k d) ≡ lookup j (erase k d')
erase-same k d d' same j = ground (arith, same j, lookup-erase k j d, lookup-erase k j d')

HoldSame-by : (a b a' b' : ThrottleServer) → a ≡ b → a' ≡ b' → HoldSame b b' → HoldSame a a'
HoldSame-by a b a' b' same same' h = rw (same, same') h

abbrev with_entry : String → ℕ → ThrottleServer → ThrottleServer
with_entry id now ts = record ts { transactions = insert id now ts.transactions }

abbrev without_entry : String → ThrottleServer → ThrottleServer
without_entry id ts = record ts { transactions = erase id ts.transactions }

with_entry-HoldSame :
    (id : String) (now : ℕ) (ts ts' : ThrottleServer)
    → HoldSame ts ts'
    → HoldSame (with_entry id now ts) (with_entry id now ts')
with_entry-HoldSame id now ts ts' (limit, hold, once, once', same) = (
  limit,
  hold,
  NodupKeys-insert id now ts.transactions once,
  NodupKeys-insert id now ts'.transactions once',
  insert-same id now ts.transactions ts'.transactions same,
)

without_entry-HoldSame :
    (id : String) (ts ts' : ThrottleServer)
    → HoldSame ts ts'
    → HoldSame (without_entry id ts) (without_entry id ts')
without_entry-HoldSame id ts ts' (limit, hold, once, once', same) = (
  limit,
  hold,
  NodupKeys-erase id ts.transactions once,
  NodupKeys-erase id ts'.transactions once',
  erase-same id ts.transactions ts'.transactions same,
)

add-HoldSame :
    (o : Outside) (ts ts' : ThrottleServer)
    → HoldSame ts ts'
    → HoldSame (add_transaction o ts).1 (add_transaction o ts').1
unfolding add_transaction
add-HoldSame o ts ts' h = elim (Returned-cases o.generated) [
  | inl (id, e) ↦
      HoldSame-by (add_transaction o ts).1 (with_entry id o.now ts) (add_transaction o ts').1
        (with_entry id o.now ts') (ground arith) (ground arith)
        (with_entry-HoldSame id o.now ts ts' h)
  | inr (x, e) ↦
      HoldSame-by (add_transaction o ts).1 ts (add_transaction o ts').1 ts' (ground arith)
        (ground arith) h
]

delete-HoldSame :
    (id : String) (ts ts' : ThrottleServer)
    → HoldSame ts ts'
    → HoldSame (delete_transaction id ts).1 (delete_transaction id ts').1
unfolding delete_transaction
delete-HoldSame id ts ts' (limit, hold, once, once', same) = elim (Bool-cases (id == "")) [
  | inl no_name ↦ rw no_name (limit, hold, once, once', same)
  | inr named ↦ elim (Option-cases (lookup id ts.transactions)) [
    | inl absent ↦
        HoldSame-by (delete_transaction id ts).1 ts (delete_transaction id ts').1 ts' (ground arith)
          (ground (arith, same id)) (limit, hold, once, once', same)
    | inr (start, found) ↦
        HoldSame-by (delete_transaction id ts).1 (without_entry id ts) (delete_transaction id ts').1
          (without_entry id ts') (ground arith) (ground (arith, same id))
          (without_entry-HoldSame id ts ts' (limit, hold, once, once', same))
  ]
]

list-unchanged : (o : Outside) (ts : ThrottleServer) → (list_transactions o ts).1 ≡ ts
unfolding list_transactions
list-unchanged o ts = ground arith

post-HoldSame :
    (o : Outside) (ts ts' : ThrottleServer)
    → HoldSame ts ts'
    → HoldSame (handle_transactions o method_post ts).1 (handle_transactions o method_post ts').1
unfolding handle_transactions
post-HoldSame o ts ts' h = elim (Bool-cases (is_full ts)) [
  | inl full ↦ rw (full, sym (is_full-same ts ts' h) ∙ full) h
  | inr room ↦ rw (room, sym (is_full-same ts ts' h) ∙ room) (add-HoldSame o ts ts' h)
]

serve-HoldSame :
    (e : Event) (ts ts' : ThrottleServer) → HoldSame ts ts' → HoldSame (serve e ts) (serve e ts')
unfolding serve handle_transaction_with_id handle_transactions
serve-HoldSame (with_id method_delete id) ts ts' h = delete-HoldSame id ts ts' h
serve-HoldSame (with_id method_get id) ts ts' h = h
serve-HoldSame (with_id method_post id) ts ts' h = h
serve-HoldSame (with_id (other_method m) id) ts ts' h = h
serve-HoldSame (transactions_root o method_get) ts ts' h =
    HoldSame-by (list_transactions o ts).1 ts (list_transactions o ts').1 ts' (list-unchanged o ts)
      (list-unchanged o ts') h
serve-HoldSame (transactions_root o method_post) ts ts' h = post-HoldSame o ts ts' h
serve-HoldSame (transactions_root o method_delete) ts ts' h = h
serve-HoldSame (transactions_root o (other_method m)) ts ts' h = h
serve-HoldSame (tick now) ts ts' (limit, hold, once, once', same) = (
  limit,
  hold,
  NodupKeys-unexpired ts.hold_duration now ts.transactions once,
  NodupKeys-unexpired ts'.hold_duration now ts'.transactions once',
  λ k. ground (
    arith,
    lookup-expire_transactions now ts k once,
    lookup-expire_transactions now ts' k once',
    same k,
  ),
)

-- Where no listing is asked for, two servers with the same settings that hold the same
-- transactions, in whatever orders and no id twice, answer every sequence of requests and ticks
-- alike.
pub answered_all-same :
    (events : List Event) (ts ts' : ThrottleServer)
    → HoldSame ts ts'
    → All AsksNoListing events
    → answered_all events ts ≡ answered_all events ts'
answered_all-same [] ts ts' h quiet = refl
answered_all-same (e ∷ events) ts ts' h (q, quiet) = rw (answered-same e ts ts' h q) (
    ap (λ rs. answered e ts' ∷ rs)
      (answered_all-same events (serve e ts) (serve e ts') (serve-HoldSame e ts ts' h) quiet))
