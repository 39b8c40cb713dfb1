-- ===== src/Throttle/Server/Promise.antt =====
-- What the server of `src/throttle/server.go` promises, said of the map from ids to start times
-- and not of how it is stored.
pub mod Refinement
pub mod Order
use bosh_lxd_cpi_release.Base.{
  ℕ, ◌≤◌, ◌<◌, ◌≡◌, ◌≢◌, String, Option, none, some, List, [], ◌∷◌, length, ◌==◌, if◌then◌else◌,
  inr,
}
use bosh_lxd_cpi_release.Base.Dict.{Dict, lookup}
use bosh_lxd_cpi_release.Base.Go.{ok}
use bosh_lxd_cpi_release.Throttle.Server.{
  Event, with_id, transactions_root, tick, Method, method_get, method_post, method_delete, Outside,
  Response, ThrottleServer, handle_transaction_with_id, handle_transactions, serve,
}
use bosh_lxd_cpi_release.Throttle.Server.Transactions.{NodupKeys, kept}

-- The start time of each transaction that is held.
abbrev pub Held : Type 0
Held = String → Option ℕ

-- A listing of what is held: each transaction once, in some order.
abbrev pub Lists : Held → Dict ℕ → Type 0
Lists held d = NodupKeys d × ((id : String) → lookup id d ≡ held id)

abbrev pub holding : String → ℕ → Held → Held
holding id now held j = if id == j then some now else held j

abbrev pub releasing : String → Held → Held
releasing id held j = if id == j then none else held j

abbrev pub expiring : ℕ → (String → ℕ) → Held → Held
expiring hold now held j = kept hold (now j) (held j)

abbrev pub answers : ℕ → String → Option Response
answers status body = some (record { status = status; body = body })

-- One event, the answer to it, if it is a request, and what is held before and after. A listing
-- stands for the number of transactions and for what the encoder is given.
pub data Promise (limit hold : ℕ) : Event → Held → Option Response → Held → Type 0 where
  created :
      {held : Held} {o : Outside} {id : String} (d : Dict ℕ)
      → Lists held d
      → length d < limit
      → o.generated ≡ inr id
      → Promise limit hold
          (transactions_root o method_post)
          held
          (answers 201 id)
          (holding id o.now held)
  too_many :
      {held : Held} {o : Outside} (d : Dict ℕ)
      → Lists held d
      → limit ≤ length d
      → Promise limit hold
          (transactions_root o method_post)
          held
          (answers 429 "Too many requests\n")
          held
  not_made :
      {held : Held} {o : Outside} {text : String} (d : Dict ℕ)
      → Lists held d
      → length d < limit
      → ((id : String) → o.generated ≢ inr id)
      → Promise limit hold (transactions_root o method_post) held (answers 500 text) held
  listed :
      {held : Held} {o : Outside} {text : String} (d : Dict ℕ)
      → Lists held d
      → o.marshal d ≡ inr text
      → Promise limit hold (transactions_root o method_get) held (answers 200 text) held
  not_listed :
      {held : Held} {o : Outside} {text : String} (d : Dict ℕ)
      → Lists held d
      → ((bytes : String) → o.marshal d ≢ inr bytes)
      → Promise limit hold (transactions_root o method_get) held (answers 500 text) held
  ended :
      {held : Held} {id : String} {start : ℕ}
      → id ≢ ""
      → held id ≡ some start
      → Promise limit hold (with_id method_delete id) held (answers 204 "") (releasing id held)
  unknown :
      {held : Held} {id : String}
      → id ≢ ""
      → held id ≡ none
      → Promise limit hold (with_id method_delete id) held (answers 404 "") held
  unnamed :
      {held : Held} {id : String}
      → id ≡ ""
      → Promise limit hold (with_id method_delete id) held (answers 400 "") held
  not_allowed_with_id :
      {held : Held} {m : Method} {id : String}
      → m ≢ method_delete
      → Promise limit hold (with_id m id) held (answers 405 "Method not allowed\n") held
  not_allowed :
      {held : Held} {o : Outside} {m : Method}
      → m ≢ method_post
      → m ≢ method_get
      → Promise limit hold (transactions_root o m) held (answers 405 "Method not allowed\n") held
  ticked :
      {held : Held} {now : String → ℕ}
      → Promise limit hold (tick now) held none (expiring hold now held)

-- A run: the events in turn with their answers.
pub data Promises (limit hold : ℕ)
    : List Event → Held → List (Option Response) → Held → Type 0 where
  over : {held : Held} → Promises limit hold [] held [] held
  then_on :
      {e : Event} {events : List Event} {held held' held'' : Held} {r : Option Response}
      {rs : List (Option Response)}
      → Promise limit hold e held r held'
      → Promises limit hold events held' rs held''
      → Promises limit hold (e ∷ events) held (r ∷ rs) held''

-- The answer to an event, if it is a request, and those to a sequence of events.
abbrev pub answered : Event → ThrottleServer → Option Response
answered (with_id m id) ts = some (handle_transaction_with_id m id ts).0
answered (transactions_root o m) ts = some (handle_transactions o m ts).0
answered (tick now) ts = none

abbrev pub answered_all : List Event → ThrottleServer → List (Option Response)
answered_all [] ts = []
answered_all (e ∷ events) ts = answered e ts ∷ answered_all events (serve e ts)
