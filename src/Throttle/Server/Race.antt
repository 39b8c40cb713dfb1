-- ===== src/Throttle/Server/Race.antt =====
-- `src/throttle/server.go` under `http.Serve`, which runs each handler in a goroutine of its own.
-- Nothing guards `transactions`, so between the test of a POST and its store others may act.
use bosh_lxd_cpi_release.Base.{false, none, ℕ, suc, ◌≡◌, String, List, [], ◌∷◌, ◌⊎◌, inr}
use bosh_lxd_cpi_release.Base.Dict.{Dict, lookup, insert}
use bosh_lxd_cpi_release.Base.Go.{Error}
use bosh_lxd_cpi_release.Throttle.Server.{
  ThrottleServer, is_full, Outside, add_transaction, method_delete, handle_transaction_with_id,
}

-- The transactions, and how many handlers of a POST are past the test and have not stored.
pub record Shared : Type 0 where
  pub server : ThrottleServer
  pub admitted : ℕ

-- One step of the whole server: a handler passes the test `is_full`; one that has passed it does
-- `add_transaction`, with the id and the clock that it then gets; a DELETE is handled.
pub data Step : Shared → Shared → Type 0 where
  admit : (s : Shared) → is_full s.server ≡ false → Step s (record s { admitted = suc s.admitted })
  store :
      (s : Shared) (o : Outside) (n : ℕ)
      → s.admitted ≡ suc n
      → Step s (record { server = (add_transaction o s.server).1; admitted = n })
  release :
      (s : Shared) (id : String)
      → Step s (record s { server = (handle_transaction_with_id method_delete id s.server).1 })

pub data Reach (s : Shared) : Shared → Type 0 where
  here : Reach s s
  next : {t u : Shared} → Reach s t → Step t u → Reach s u

abbrev pub with_transactions : Dict ℕ → ThrottleServer → ThrottleServer
with_transactions d ts = record ts { transactions = d }

-- The transactions after the ids are stored one after the other.
abbrev pub store_all : List String → ℕ → Dict ℕ → Dict ℕ
store_all [] now d = d
store_all (id ∷ ids) now d = store_all ids now (insert id now d)

-- What a handler that stores gets from outside.
abbrev getting : (Error → String) → (Dict ℕ → Error ⊎ String) → String → ℕ → Outside
getting error_text marshal id now = record {
  error_text = error_text;
  marshal = marshal;
  generated = inr id;
  now = now;
}

-- Ids that a dictionary does not have, all different.
abbrev pub AreFresh : ℕ → List String → Dict ℕ → Type 0
AreFresh now [] d = Unit
AreFresh now (id ∷ ids) d = (lookup id d ≡ none) × AreFresh now ids (insert id now d)
