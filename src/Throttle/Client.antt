-- ===== src/Throttle/Client.antt =====
-- `src/throttle/client.go`. `lock_and_wait` reads a list of replies, and `lock_and_wait_at_most`
-- asks a client for them. A call over HTTP gives a response, whose body can fail to be read, or
-- an error, beside which Go allows a response.
pub mod Waiting
use bosh_lxd_cpi_release.Base.{
  ℕ, ◌+◌, String, Option, none, some, List, [], ◌∷◌, ◌=ℕ◌, if◌then◌else◌, zero, suc, ◌⊎◌, inl, inr,
}
use bosh_lxd_cpi_release.Base.Go.{Error, Result, ok, err, panic, M, Done, lift, pure, ◌>>=◌, ◌>>◌}
use bosh_lxd_cpi_release.Config.{ThrottleConfig}

pub data HttpReply : Type 0 where
  response : ℕ → Error ⊎ String → HttpReply
  failed : Option ℕ → Error → HttpReply

-- The three results of `Lock`: the content, the status code and the error.
abbrev pub LockResult : Type 0
LockResult = String × ℕ × Option Error

unfoldable pub lock : HttpReply → LockResult
lock (response status (inr content)) = (content, status, none)
lock (response status (inl e)) = ("", status, some e)
lock (failed none e) = ("", 500, some e)
lock (failed (some status) e) = ("", status, some e)

-- What `LockAndWait` does with a result of `Lock`: wait some seconds and go on, or return.
pub data Verdict : Type 0 where
  retry_after : ℕ → Verdict
  finished : Result String → Verdict

unfoldable pub judge : LockResult → Verdict
judge (content, status_code, e) = if status_code =ℕ 429 then retry_after 10 else elim e [
  | some e' ↦ finished (err e')
  | none ↦ if status_code =ℕ 201 then finished (ok content) else retry_after 1
]

-- `LockAndWait` over the replies that the calls of `Lock` get in turn, with the seconds slept so
-- far. `none`: it still waits after the last of them.
unfoldable pub lock_and_wait : ℕ → List HttpReply → Option (Result String × ℕ)
lock_and_wait slept [] = none
lock_and_wait slept (reply ∷ replies) = elim (judge (lock reply)) [
  | retry_after seconds ↦ lock_and_wait (slept + seconds) replies
  | finished r ↦ some (r, slept)
]

-- The end of `Unlock`: with no response, `resp.StatusCode` panics.
unfoldable pub unlocked : HttpReply → Result Done
unlocked (response status _) = ok tt
unlocked (failed none e) = panic
unlocked (failed (some status) e) = if status =ℕ 404 then ok tt else err e

abbrev pub transactions_root : String
transactions_root = "http://localhost/transactions"

-- `ThrottleClient`, by what its `http.Client` is asked for: a POST of a body to a URL, and a DELETE
-- of a URL, which is made (`http.NewRequest`) and performed.
pub record ThrottleClient (W : Type 0) : Type 0 where
  pub post : String → String → String → M W HttpReply
  pub send_delete : String → M W HttpReply

-- `NewThrottleClient`: `dial` is `net.Dial`, and `http_over` the client whose connections are all
-- the one that was dialled.
unfoldable pub new_throttle_client :
    {W C : Type 0}
    → (String → String → M W C)
    → (C → ThrottleClient W)
    → ThrottleConfig
    → M W (ThrottleClient W)
new_throttle_client dial http_over config = do conn ← dial "unix" config.path; pure (http_over conn)

module _ {W : Type 0} where
  -- `Lock`
  unfoldable pub send_lock : ThrottleClient W → M W LockResult
  unfolding lock
  send_lock client = do reply ← client.post transactions_root "plain/text" ""; pure (lock reply)

  -- `LockAndWait` for at most as many calls of `Lock` as the number says, with `time.Sleep`. `none`:
  -- all of them were to be retried.
  unfoldable pub lock_and_wait_at_most : (ℕ → M W Done) → ThrottleClient W → ℕ → M W (Option String)
  unfolding send_lock judge
  lock_and_wait_at_most sleep client zero = pure none
  lock_and_wait_at_most sleep client (suc calls) = do
    locked ← send_lock client
    elim (judge locked) [
      | retry_after seconds ↦ sleep seconds >> lock_and_wait_at_most sleep client calls
      | finished r ↦ lift r >>= λ content. pure (some content)
    ]

  -- `Unlock`; `join_path` is `url.JoinPath`.
  unfoldable pub unlock : (String → String → Result String) → ThrottleClient W → String → M W Done
  unfolding unlocked
  unlock join_path client transaction_id = do
    url ← lift (join_path transactions_root transaction_id)
    reply ← client.send_delete url
    lift (unlocked reply)
