-- ===== src/Redis.antt =====
-- backend/src/redis/redis.service.ts: the locks. The Redis client is a parameter: a store of keys
-- with `SET key EX ttl NX` and `DEL key`, in which a key is there until its time to live is over.
-- Times are in seconds.
pub mod Tokens
mod Tests
use event_now.Prelude.{
  ℕ, ◌+◌, ◌≤◌, ◌≡◌, refl, sym, ap, Bool, true, false, ltb, ◌==◌, if◌then◌else◌, inl, inr, arith,
}
use event_now.Prelude.Outcome.{Outcome, ok, err, final, outcome_cases}
use event_now.Http.{HttpException, lock_unavailable}

pub record Redis : Type 1 where
  pub Keys : Type 0
  -- A key at a time.
  pub exists : ℕ → ℕ → Keys → Bool
  -- A key, its time to live and the time of the call.
  pub set : ℕ → ℕ → ℕ → Keys → Keys
  pub del : ℕ → Keys → Keys
  pub exists-set :
      (j k ttl now t : ℕ) (s : Keys)
      → now ≤ t
      → exists j t (set k ttl now s) ≡ (if k == j then ltb t (now + ttl) else exists j t s)
  pub exists-del :
      (j k t : ℕ) (s : Keys) → exists j t (del k s) ≡ (if k == j then false else exists j t s)

-- The locks and the state that the callback works on.
pub record Locked (r : Redis) (S : Type 0) : Type 0 where
  pub keys : r.Keys
  pub state : S

-- `SET lock:key 1 EX ttl NX`; it answers OK if the key was not there.
pub acquire_lock : (r : Redis) → ℕ → ℕ → ℕ → r.Keys → Bool × r.Keys
acquire_lock r key ttl now keys =
    if r.exists key now keys then (false, keys) else (true, r.set key ttl now keys)

pub release_lock : (r : Redis) → ℕ → r.Keys → r.Keys
release_lock r key keys = r.del key keys

-- A callback leaves the locks as it and whatever else runs meanwhile have made them: the lock may be
-- over before it is done, and someone else may have taken it.
abbrev pub Callback : Redis → Type 0 → Type 0 → Type 0
Callback r S A = Locked r S → Outcome HttpException (Locked r S) A

module _ {r : Redis} {S A : Type 0} where
  -- The `finally` of `withLock`: the lock is released whether the callback returned or threw.
  finally_release : ℕ → Outcome HttpException (Locked r S) A → Outcome HttpException (Locked r S) A
  finally_release key (ok a w) = ok a (record w { keys = release_lock r key w.keys })
  finally_release key (err e w) = err e (record w { keys = release_lock r key w.keys })

  run_locked : ℕ → Callback r S A → S → Bool × r.Keys → Outcome HttpException (Locked r S) A
  unfolding finally_release
  run_locked key callback s (false, keys) = err lock_unavailable (record { keys = keys; state = s })
  run_locked key callback s (true, keys) =
      finally_release key (callback (record { keys = keys; state = s }))

  pub with_lock : ℕ → Callback r S A → ℕ → ℕ → Locked r S → Outcome HttpException (Locked r S) A
  unfolding run_locked acquire_lock
  with_lock key callback ttl now w =
      run_locked key callback w.state (acquire_lock r key ttl now w.keys)

  -- A lock that is held stops the call: nothing runs and nothing changes.
  pub with_lock_held :
      (key : ℕ) (callback : Callback r S A) (ttl now : ℕ) (w : Locked r S)
      → r.exists key now w.keys ≡ true
      → with_lock key callback ttl now w ≡ err lock_unavailable w
  unfolding with_lock
  with_lock_held key callback ttl now w held = ground arith

  -- With the lock free the callback runs, and the state is the callback's.
  pub with_lock_free :
      (key : ℕ) (callback : Callback r S A) (ttl now : ℕ) (w : Locked r S)
      → r.exists key now w.keys ≡ false
      → let done = final (callback (record w { keys = r.set key ttl now w.keys })) in
        final (with_lock key callback ttl now w) ≡ record done { keys = r.del key done.keys }
  unfolding with_lock release_lock
  with_lock_free key callback ttl now w free =
      elim (outcome_cases (callback (record w { keys = r.set key ttl now w.keys }))) [
        | inl (a, t, e) ↦ ground (arith, e, free)
        | inr (x, t, e) ↦ ground (arith, e, free)
      ]
