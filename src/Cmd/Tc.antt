-- ===== src/Cmd/Tc.antt =====
-- `src/cmd/tc/main.go`, after the options are read: a client of the throttle that shows what its
-- calls return. `LockAndWait` is a parameter here, since it waits as long as it takes.
use bosh_lxd_cpi_release.Base.{ℕ, String, Option, none, some, ◌⊎◌, inl, inr}
use bosh_lxd_cpi_release.Base.Go.{Error, Result, M, Done, pure, attempt, ◌>>=◌, ◌>>◌, ok}
use bosh_lxd_cpi_release.Config.{Config, ThrottleConfig}
use bosh_lxd_cpi_release.Throttle.Client.{ThrottleClient, LockResult, send_lock, unlock}

-- The arguments of the lines that are printed.
pub data Line : Type 0 where
  lock_line : LockResult → Line
  unlock_line : String → Option Error → Line
  lock_and_wait_line : String → Option Error → Line

-- The content and the error that a call returns: beside an error the content is empty.
abbrev content_of : {A : Type 0} → A → (Error ⊎ A) → A × Option Error
content_of zero_value (inl e) = (zero_value, some e)
content_of zero_value (inr a) = (a, none)

module _ {W : Type 0} (new_client : ThrottleConfig → M W (ThrottleClient W))
    (lock_and_wait : ThrottleClient W → M W String) (join_path : String → String → Result String)
    (print : Line → W → W) where
  -- `fmt.Printf`, whose results are dropped.
  abbrev show_line : Line → M W Done
  show_line line w = (ok tt, print line w)

  unfoldable pub unlock_and_show : ThrottleClient W → String → M W Done
  unfolding unlock
  unlock_and_show client transaction_id = do
    unlocked ← attempt (unlock join_path client transaction_id)
    show_line (unlock_line transaction_id (content_of tt unlocked).1)

  unfoldable pub exercise : ThrottleClient W → M W ℕ
  unfolding send_lock unlock_and_show
  exercise client = do
    locked ← send_lock client
    show_line (lock_line locked)
    unlock_and_show client locked.0
    waited ← attempt (lock_and_wait client)
    let (transaction_id, e) = content_of "" waited
    show_line (lock_and_wait_line transaction_id e)
    unlock_and_show client transaction_id
    pure 0

  unfoldable pub run_tc : M W Config → M W ℕ
  unfolding exercise
  run_tc load_config = do
    loaded ← attempt load_config
    elim loaded [
      | inl _ ↦ pure 1
      | inr config ↦ do
        made ← attempt (new_client config.throttle_config)
        elim made [ inl _ ↦ pure 1 | inr client ↦ exercise client ]
    ]
