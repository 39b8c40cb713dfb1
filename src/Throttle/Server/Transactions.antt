-- ===== src/Throttle/Server/Transactions.antt =====
-- What the handlers of `src/throttle/server.go` do to one transaction.
use bosh_lxd_cpi_release.Base.{
  Option-cases, inl, inr, ℕ, ◌+◌, ◌≡◌, ◌≢◌, refl, String, false, Option, some, none, [], ◌∷◌, arith,
  ltb, eq_iff, if◌then◌else◌,
}
use bosh_lxd_cpi_release.Base.Dict.{Dict, lookup, lookup-insert, erase-insert}
use bosh_lxd_cpi_release.Throttle.Server.{
  ThrottleServer, method_post, method_delete, Outside, unexpired, is_full,
  handle_transaction_with_id, handle_transactions, expire_transactions,
}

-- On a server with room, a transaction that a POST created under a fresh id that is not empty is
-- stored, its DELETE answers 204 and gives the server back as it was, and a second DELETE answers
-- 404 and changes nothing.
pub post_delete :
    (o : Outside) (ts : ThrottleServer) {id : String}
    → is_full ts ≡ false
    → o.generated ≡ inr id
    → id ≢ ""
    → lookup id ts.transactions ≡ none
    → let (posted, ts') = handle_transactions o method_post ts in
      let (deleted, ts'') = handle_transaction_with_id method_delete id ts' in
      (posted ≡ record { status = 201; body = id })
      × (lookup id ts'.transactions ≡ some o.now)
      × (deleted ≡ record { status = 204; body = "" })
      × (ts'' ≡ ts)
      × (handle_transaction_with_id method_delete id ts''
          ≡ (record { status = 404; body = "" }, ts))
unfolding handle_transactions handle_transaction_with_id
post_delete o ts {id} room made named fresh = ground (
  arith,
  eq_iff id "",
  eq_iff id id,
  lookup-insert id id o.now ts.transactions,
  erase-insert id o.now ts.transactions fresh,
)

abbrev pub NodupKeys : Dict ℕ → Type 0
NodupKeys [] = Unit
NodupKeys ((k, v) ∷ d) = (lookup k d ≡ none) × NodupKeys d

pub lookup-unexpired_absent :
    (hold : ℕ) (now : String → ℕ) (d : Dict ℕ) (k : String)
    → lookup k d ≡ none
    → lookup k (unexpired hold now d) ≡ none
unfolding lookup unexpired
lookup-unexpired_absent hold now [] k h = refl
lookup-unexpired_absent hold now ((j, v) ∷ d) k h =
    ground (arith, lookup-unexpired_absent hold now d k)

lookup-unexpired :
    (hold : ℕ) (now : String → ℕ) (d : Dict ℕ) (k : String) (v : ℕ)
    → NodupKeys d
    → lookup k d ≡ some v
    → lookup k (unexpired hold now d) ≡ (if ltb (v + hold) (now k) then none else some v)
unfolding lookup unexpired
lookup-unexpired hold now [] k v u h = cc
lookup-unexpired hold now ((j, w) ∷ d) k v u h =
    ground
      (arith, eq_iff j k, lookup-unexpired hold now d k v u.1, lookup-unexpired_absent hold now d k)

-- The time that a tick leaves for a transaction, from the one before it.
abbrev pub kept : ℕ → ℕ → Option ℕ → Option ℕ
kept hold now none = none
kept hold now (some v) = if ltb (v + hold) now then none else some v

-- A tick drops exactly the transactions that are older than the hold duration when the loop reads
-- the clock for them, if no id is stored twice; the others keep their times, and no transaction
-- appears.
pub lookup-expire_transactions :
    (now : String → ℕ) (ts : ThrottleServer) (k : String)
    → NodupKeys ts.transactions
    → lookup k (expire_transactions now ts).transactions
      ≡ kept ts.hold_duration (now k) (lookup k ts.transactions)
unfolding expire_transactions
lookup-expire_transactions now ts k u = elim (Option-cases (lookup k ts.transactions)) [
  | inl absent ↦ rw absent (lookup-unexpired_absent ts.hold_duration now ts.transactions k absent)
  | inr (v, found) ↦ rw found (lookup-unexpired ts.hold_duration now ts.transactions k v u found)
]
