-- ===== src/Throttle/Together/Turn.antt =====
-- How long `LockAndWait` (`src/throttle/client.go`) waits for the server of
-- `src/throttle/server.go`.
use bosh_lxd_cpi_release.Base.{
  ℕ, zero, suc, ◌+◌, ◌*◌, ◌/◌, ◌≤◌, ◌<◌, ◌≡◌, refl, inl, inr, String, some, List, [], ◌∷◌, length,
  All, arith, ◌∙◌, true, false, Bool-cases, eq_iff,
}
use bosh_lxd_cpi_release.Base.Dict.{Dict, lookup, insert, erase, lookup-insert}
use bosh_lxd_cpi_release.Base.Go.{ok}
use bosh_lxd_cpi_release.Throttle.Server.{
  ThrottleServer, method_delete, unexpired, is_full, add_transaction, handle_transactions,
  handle_transaction_with_id, expire_transactions, delete_transaction,
}
use bosh_lxd_cpi_release.Throttle.Client.{lock, judge, send_lock, lock_and_wait_at_most}
use bosh_lxd_cpi_release.Throttle.Together.{
  seconds_long, Site, Others, end_all, site_client, after_sleep, site_sleep,
}

-- Every transaction expires before a time.
abbrev pub ExpireBefore : ℕ → ℕ → Dict ℕ → Type 0
ExpireBefore hold time = All (λ (entry : String × ℕ). entry.1 + hold < time)

-- None of them has expired at a time, and all of them expire before another.
abbrev pub ExpireWithin : ℕ → ℕ → ℕ → Dict ℕ → Type 0
ExpireWithin hold now time =
    All (λ (entry : String × ℕ). (now ≤ entry.1 + hold) × (entry.1 + hold < time))

erase-ExpireBefore :
    (hold time : ℕ) (k : String) (d : Dict ℕ)
    → ExpireBefore hold time d
    → ExpireBefore hold time (erase k d)
unfolding erase
erase-ExpireBefore hold time k [] h = tt
erase-ExpireBefore hold time k ((j, v) ∷ d) h = ground (arith, erase-ExpireBefore hold time k d h.1)

-- What a DELETE, one or several, leaves of a server.
abbrev LeavesOf : ℕ → ℕ → ThrottleServer → ThrottleServer → Type 0
LeavesOf hold time ts ts' =
    (ts'.hold_duration ≡ ts.hold_duration)
    × (ts'.limit ≡ ts.limit)
    × ExpireBefore hold time ts'.transactions

delete-LeavesOf :
    (hold time : ℕ) (id : String) (ts : ThrottleServer)
    → ExpireBefore hold time ts.transactions
    → LeavesOf hold time ts (handle_transaction_with_id method_delete id ts).1
unfolding handle_transaction_with_id delete_transaction
delete-LeavesOf hold time id ts h =
    ground (arith, erase-ExpireBefore hold time id ts.transactions h)

end_all-LeavesOf :
    (hold time : ℕ) (ids : List String) (ts : ThrottleServer)
    → ExpireBefore hold time ts.transactions
    → LeavesOf hold time ts (end_all ids ts)
end_all-LeavesOf hold time [] ts h = (refl, refl, h)
end_all-LeavesOf hold time (id ∷ ids) ts h =
    let (same_hold, same_limit, before) = delete-LeavesOf hold time id ts h in
    let ts' = (handle_transaction_with_id method_delete id ts).1 in
    let (hold', limit', before') = end_all-LeavesOf hold time ids ts' before in
    (hold' ∙ same_hold, limit' ∙ same_limit, before')

unexpired-ExpireWithin :
    (held hold seen now time : ℕ) (d : Dict ℕ)
    → held ≡ hold
    → seen ≤ now
    → ExpireBefore hold time d
    → ExpireWithin hold seen time (unexpired held (λ id. now) d)
unfolding unexpired
unexpired-ExpireWithin held hold seen now time [] same late h = tt
unexpired-ExpireWithin held hold seen now time ((j, v) ∷ d) same late h =
    ground (arith, unexpired-ExpireWithin held hold seen now time d same late h.1)

none_left :
    (hold now time : ℕ) (d : Dict ℕ) → ExpireWithin hold now time d → time ≤ now → length d ≡ 0
none_left hold now time [] h late = refl
none_left hold now time ((k, v) ∷ d) h late = omega arith

room-ExpireWithin :
    (hold now time : ℕ) (ts : ThrottleServer)
    → 0 < ts.limit
    → ExpireWithin hold now time ts.transactions
    → time ≤ now
    → is_full ts ≡ false
unfolding is_full
room-ExpireWithin hold now time ts some_room h late =
    ground (arith, none_left hold now time ts.transactions h late)

ExpireWithin-ExpireBefore :
    (hold now time : ℕ) (d : Dict ℕ) → ExpireWithin hold now time d → ExpireBefore hold time d
ExpireWithin-ExpireBefore hold now time [] h = tt
ExpireWithin-ExpireBefore hold now time ((k, v) ∷ d) h =
    (h.0.1, ExpireWithin-ExpireBefore hold now time d h.1)

begun-ExpireBefore :
    (hold now : ℕ) (d : Dict ℕ)
    → All (λ (entry : String × ℕ). entry.1 ≤ now) d
    → ExpireBefore hold (now + hold + 1) d
begun-ExpireBefore hold now [] h = tt
begun-ExpireBefore hold now ((k, v) ∷ d) h = (omega arith, begun-ExpireBefore hold now d h.1)

module _ (others : Others) where
  -- That a call of `LockAndWait` from `w`, with so many calls of `Lock` at most, ends with a
  -- transaction that the server holds, made no later than a time.
  abbrev pub GetsTurn : ℕ → Site → ℕ → Type 0
  GetsTurn calls w latest =
      (w' : Site) × (lock_and_wait_at_most (site_sleep others) (site_client others) calls w
        ≡ (ok (some (others.generate w'.clock)), w'))
      × (w'.clock ≤ latest)
      × (lookup (others.generate w'.clock) w'.server.transactions ≡ some w'.clock)

  -- With room the first call of `Lock` gets it.
  turn_at_once :
      (calls : ℕ) (w : Site) (latest : ℕ)
      → is_full w.server ≡ false
      → w.clock ≤ latest
      → GetsTurn (suc calls) w latest
  unfolding lock_and_wait_at_most send_lock lock judge handle_transactions add_transaction
  turn_at_once calls w latest room early = (
    record w {
      server = record w.server {
        transactions = insert (others.generate w.clock) w.clock w.server.transactions;
      };
    },
    ground arith,
    omega arith,
    ground (
      arith,
      lookup-insert (others.generate w.clock) (others.generate w.clock) w.clock
          w.server.transactions,
      eq_iff (others.generate w.clock) (others.generate w.clock),
    ),
  )

  -- Without room it sleeps and tries again.
  turn_later :
      (calls : ℕ) (w : Site) (latest : ℕ)
      → is_full w.server ≡ true
      → GetsTurn calls (after_sleep others 10 w) latest
      → GetsTurn (suc calls) w latest
  unfolding lock_and_wait_at_most send_lock lock judge handle_transactions
  turn_later calls w latest full (w', ends, early, held) = (w', ground (arith, ends), early, held)

module _ (others : Others) (ticks : (now : ℕ) → now ≤ others.ticking now) where
  -- What a sleep leaves, if all transactions expire before a time.
  after_sleep-ExpireWithin :
      (hold seconds time : ℕ) (w : Site)
      → w.server.hold_duration ≡ hold
      → ExpireBefore hold time w.server.transactions
      → let w' = after_sleep others seconds w in
        (w'.server.hold_duration ≡ w.server.hold_duration)
        × (w'.server.limit ≡ w.server.limit)
        × ExpireWithin hold w.clock time w'.server.transactions
  unfolding expire_transactions
  after_sleep-ExpireWithin hold seconds time w same h =
      let (same_hold, same_limit, before) =
        end_all-LeavesOf hold time (others.ending w.clock) w.server h in
      (
        same_hold,
        same_limit,
        unexpired-ExpireWithin (end_all (others.ending w.clock) w.server).hold_duration hold w.clock
            (others.ticking w.clock) time (end_all (others.ending w.clock) w.server).transactions
            (same_hold ∙ same) (ticks w.clock) before,
      )

  -- After so many sleeps of ten seconds that all transactions have expired at the last tick, there
  -- is room.
  gets_turn :
      (f hold seen time latest : ℕ) (w : Site)
      → w.server.hold_duration ≡ hold
      → 0 < w.server.limit
      → w.clock ≡ seen + seconds_long 10
      → ExpireWithin hold seen time w.server.transactions
      → time ≤ seen + seconds_long (10 * f)
      → w.clock + seconds_long (10 * f) ≤ latest
      → GetsTurn others (suc f) w latest
  gets_turn zero hold seen time latest w same some_room slept h late enough =
      turn_at_once others 0 w latest
        (room-ExpireWithin hold seen time w.server some_room h (omega arith)) (omega arith)
  gets_turn (suc f) hold seen time latest w same some_room slept h late enough =
      elim (Bool-cases (is_full w.server)) [
        | inr room ↦ turn_at_once others (suc f) w latest room (omega arith)
        | inl full ↦
            let before = ExpireWithin-ExpireBefore hold seen time w.server.transactions h in
            let (same_hold, same_limit, within) =
              after_sleep-ExpireWithin hold 10 time w same before in
            turn_later others (suc f) w latest full (
              gets_turn f hold w.clock time latest (after_sleep others 10 w) (same_hold ∙ same)
                (omega (arith, same_limit)) refl within (omega arith) (omega arith))
      ]

  -- A waiting client gets its turn: on a server with a limit above zero, whose transactions have
  -- all begun, while others end theirs and start none and no sleep is without a tick that comes
  -- after its beginning, LockAndWait returns with the id of a transaction that the server holds,
  -- after at most three calls of Lock more than the hold duration has whole spans of ten seconds,
  -- and within as many such spans of time and two more.
  pub lock_and_wait-GetsTurn :
      (w : Site)
      → 0 < w.server.limit
      → All (λ (entry : String × ℕ). entry.1 ≤ w.clock) w.server.transactions
      → let rounds = w.server.hold_duration / 10000000000 in
        GetsTurn others (suc (suc (suc rounds))) w (w.clock + seconds_long (10 * (rounds + 2)))
  lock_and_wait-GetsTurn w some_room begun =
      let rounds = w.server.hold_duration / 10000000000 in
      let hold = w.server.hold_duration in
      let time = w.clock + hold + 1 in
      let latest = w.clock + seconds_long (10 * (rounds + 2)) in
      elim (Bool-cases (is_full w.server)) [
        | inr room ↦ turn_at_once others (suc (suc rounds)) w latest room (omega arith)
        | inl full ↦
            let before = begun-ExpireBefore hold w.clock w.server.transactions begun in
            let (same_hold, same_limit, within) =
              after_sleep-ExpireWithin hold 10 time w refl before in
            turn_later others (suc (suc rounds)) w latest full (
              gets_turn (suc rounds) hold w.clock time latest (after_sleep others 10 w) same_hold
                (omega (arith, same_limit)) refl within (omega arith) (omega arith))
      ]
