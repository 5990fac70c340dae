-- ===== src/Redis/Tests.antt =====
-- The theorem on locks applied to locks that are a function of the key and the time, and that on codes
-- to such a store (backend/src/redis/redis.service.ts).
use event_now.Prelude.{ℕ, ◌+◌, ◌≡◌, refl, false, Option, none, some, ltb, if◌then◌else◌, arith}
use event_now.Prelude.Outcome.{err}
use event_now.Http.{lock_unavailable}
use event_now.Redis.{Locked, Callback}
use event_now.Redis.Tokens.{
  Key, Cache, same_key, set_oauth_code, get_and_delete_oauth_code, get_and_delete_oauth_code_once,
}
use event_now.Tests.{locks}

abbrev none_held : Locked locks ℕ
none_held = record { keys = λ k t. false; state = 5 }

-- The callback throws when its lock is over and someone else has taken it.
abbrev fails : Callback locks ℕ ℕ
fails w = err lock_unavailable (record { keys = locks.set 3 10 15 w.keys; state = 6 })

-- A store as a function of the key and the time.
abbrev memory : Cache ℕ
memory = record {
  Store = Key → ℕ → Option ℕ;
  get_at = λ k t s. s k t;
  setex = λ k ttl v now s.
      λ j t. if same_key k j then (if ltb t (now + ttl) then some v else none) else s j t;
  del = λ k s. λ j t. if same_key k j then none else s j t;
  get_at-setex = λ j k ttl v now t s h. refl;
  get_at-del = λ j k t s. refl;
}

abbrev nothing : Key → ℕ → Option ℕ
nothing k t = none

get_and_delete_oauth_code_once_example :
    let first = get_and_delete_oauth_code memory 5 20 (set_oauth_code memory 5 8 10 nothing) in
    (first.0 ≡ (if ltb 20 (10 + 60) then some 8 else none))
    × ((get_and_delete_oauth_code memory 5 30 first.1).0 ≡ none)
get_and_delete_oauth_code_once_example =
    get_and_delete_oauth_code_once memory 5 8 10 20 30 nothing (omega arith) (omega arith)
