-- ===== src/Throttle/Client/Waiting.antt =====
-- `LockAndWait` of `src/throttle/client.go`.
use mathlib.Core.List.{map}
use bosh_lxd_cpi_release.Base.{
  ℕ, ◌+◌, ◌≡◌, ◌≢◌, String, some, none, List, [], ◌∷◌, ◌++◌, All, arith, ◌⊎◌, inl, inr,
}
use bosh_lxd_cpi_release.Base.Go.{Result, ok, err}
use bosh_lxd_cpi_release.Throttle.Client.{
  HttpReply, response, failed, lock, judge, retry_after, finished, lock_and_wait,
}

-- A reply that is not the last: one of 429, whether or not the call failed, after which there is a
-- sleep of 10 seconds; or one that could be read and is neither 429 nor 201, after which there is
-- a sleep of one second.
abbrev pub IsRetriedAfter : HttpReply → ℕ → Type 0
IsRetriedAfter (response status (inr content)) seconds =
    ((status ≡ 429) × (seconds ≡ 10)) ⊎ ((status ≢ 429) × (status ≢ 201) × (seconds ≡ 1))
IsRetriedAfter (response status (inl e)) seconds = (status ≡ 429) × (seconds ≡ 10)
IsRetriedAfter (failed none e) seconds = ⊥
IsRetriedAfter (failed (some status) e) seconds = (status ≡ 429) × (seconds ≡ 10)

-- A reply that ends the wait: one of 201 that could be read, with its content, or a failure that
-- is not of 429, with its error.
abbrev pub EndsWith : HttpReply → Result String → Type 0
EndsWith (response status (inr content)) r = (status ≡ 201) × (r ≡ ok content)
EndsWith (response status (inl e)) r = (status ≢ 429) × (r ≡ err e)
EndsWith (failed none e) r = r ≡ err e
EndsWith (failed (some status) e) r = (status ≢ 429) × (r ≡ err e)

judge-IsRetriedAfter :
    (reply : HttpReply) (seconds : ℕ)
    → IsRetriedAfter reply seconds
    → judge (lock reply) ≡ retry_after seconds
unfolding judge lock
judge-IsRetriedAfter (response status (inr content)) seconds (inl (busy, ten)) = ground arith
judge-IsRetriedAfter (response status (inr content)) seconds (inr (free, other, one)) = ground arith
judge-IsRetriedAfter (response status (inl e)) seconds (busy, ten) = ground arith
judge-IsRetriedAfter (failed none e) seconds h = elim h [ ]
judge-IsRetriedAfter (failed (some status) e) seconds (busy, ten) = ground arith

judge-EndsWith :
    (reply : HttpReply) (r : Result String) → EndsWith reply r → judge (lock reply) ≡ finished r
unfolding judge lock
judge-EndsWith (response status (inr content)) r (created, same) = ground arith
judge-EndsWith (response status (inl e)) r (free, same) = ground arith
judge-EndsWith (failed none e) r same = ground arith
judge-EndsWith (failed (some status) e) r (free, same) = ground arith

abbrev pub replies_of : List (HttpReply × ℕ) → List HttpReply
replies_of early = map (λ p. p.0) early

abbrev pub total_sleep : List (HttpReply × ℕ) → ℕ
total_sleep [] = 0
total_sleep ((reply, seconds) ∷ early) = seconds + total_sleep early

-- LockAndWait goes on after each reply of 429, with a sleep of 10 seconds, and after each that
-- could be read and is not 201, with a sleep of one; it returns with the first other reply,
-- whatever comes after it: with the content of a 201 or with the error of a failed call.
pub lock_and_wait-first :
    (early : List (HttpReply × ℕ)) (reply : HttpReply) (rest : List HttpReply) (slept : ℕ)
    {r : Result String}
    → All (λ (p : HttpReply × ℕ). IsRetriedAfter p.0 p.1) early
    → EndsWith reply r
    → lock_and_wait slept (replies_of early ++ (reply ∷ rest)) ≡ some (r, slept + total_sleep early)
unfolding lock_and_wait
lock_and_wait-first [] reply rest slept {r} h e = ground (arith, judge-EndsWith reply r e)
lock_and_wait-first ((x, seconds) ∷ early) reply rest slept (h, hs) e = ground (
  arith,
  judge-IsRetriedAfter x seconds h,
  lock_and_wait-first early reply rest (slept + seconds) hs e,
)
