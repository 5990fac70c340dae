-- ===== src/Redis/Tokens.antt =====
-- backend/src/redis/redis.service.ts: the blacklist of tokens and the codes of OAuth. The Redis
-- client is a parameter: a store with `SETEX`, `GET` and `DEL`, in which a value is there until its
-- time to live is over. A token and a code are numbers; a time is in seconds.
use event_now.Prelude.{
  ℕ, ◌+◌, ◌≤◌, ◌≡◌, Bool, false, Option, none, some, ltb, ◌==◌, is_some, if◌then◌else◌, arith,
}

-- The keys `blacklist:…` and `oauth:code:…`.
pub data Key : Type 0 where
  blacklist oauth_code : ℕ → Key

abbrev pub same_key : Key → Key → Bool
same_key (blacklist a) (blacklist b) = a == b
same_key (oauth_code a) (oauth_code b) = a == b
same_key (blacklist a) (oauth_code b) = false
same_key (oauth_code a) (blacklist b) = false

-- `V` is what `JSON.parse` reads back from the text that `JSON.stringify` makes of a value.
pub record Cache (V : Type 0) : Type 1 where
  pub Store : Type 0
  -- The value of a key at a time.
  pub get_at : Key → ℕ → Store → Option V
  -- A key, a time to live, a value and the time of the call.
  pub setex : Key → ℕ → V → ℕ → Store → Store
  pub del : Key → Store → Store
  pub get_at-setex :
      (j k : Key) (ttl : ℕ) (v : V) (now t : ℕ) (s : Store)
      → now ≤ t
      → get_at j t (setex k ttl v now s)
        ≡ (if same_key k j then (if ltb t (now + ttl) then some v else none) else get_at j t s)
  pub get_at-del :
      (j k : Key) (t : ℕ) (s : Store)
      → get_at j t (del k s) ≡ (if same_key k j then none else get_at j t s)

module _ {V : Type 0} (c : Cache V) where
  pub blacklist_token : V → ℕ → ℕ → ℕ → c.Store → c.Store
  blacklist_token one token expires_in_seconds now s =
      c.setex (blacklist token) expires_in_seconds one now s

  pub is_token_blacklisted : ℕ → ℕ → c.Store → Bool
  is_token_blacklisted token now s = is_some (c.get_at (blacklist token) now s)

  abbrev pub oauth_code_ttl_seconds : ℕ
  oauth_code_ttl_seconds = 60

  pub set_oauth_code : ℕ → V → ℕ → c.Store → c.Store
  set_oauth_code code stored now s = c.setex (oauth_code code) oauth_code_ttl_seconds stored now s

  pub get_and_delete_oauth_code : ℕ → ℕ → c.Store → Option V × c.Store
  get_and_delete_oauth_code code now s = elim (c.get_at (oauth_code code) now s) [
    | none ↦ (none, s)
    | some v ↦ (some v, c.del (oauth_code code) s)
  ]

  -- A blacklisted token is refused until the seconds are over, and only then no more.
  pub is_token_blacklisted-blacklist_token :
      (one : V) (token seconds now t : ℕ) (s : c.Store)
      → now ≤ t
      → is_token_blacklisted token t (blacklist_token one token seconds now s)
        ≡ ltb t (now + seconds)
  unfolding is_token_blacklisted blacklist_token
  is_token_blacklisted-blacklist_token one token seconds now t s later =
      ground (arith, c.get_at-setex (blacklist token) (blacklist token) seconds one now t s later)

  -- A code is exchanged for its data within a minute, and for nothing after that; a second exchange,
  -- at any time, gets nothing.
  pub get_and_delete_oauth_code_once :
      (code : ℕ) (stored : V) (now t t' : ℕ) (s : c.Store)
      → now ≤ t
      → t ≤ t'
      → let first = get_and_delete_oauth_code code t (set_oauth_code code stored now s) in
        (first.0 ≡ (if ltb t (now + 60) then some stored else none))
        × ((get_and_delete_oauth_code code t' first.1).0 ≡ none)
  unfolding get_and_delete_oauth_code set_oauth_code
  get_and_delete_oauth_code_once code stored now t t' s early late =
      let k = oauth_code code in
      let law = c.get_at-setex k k 60 stored now t s early in
      let law' = c.get_at-setex k k 60 stored now t' s (omega arith) in
      let gone = c.get_at-del k k t' (c.setex k 60 stored now s) in
      (ground (arith, law), ground (arith, law, law', gone))
