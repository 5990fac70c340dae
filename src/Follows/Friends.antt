-- ===== src/Follows/Friends.antt =====
-- Friends and lists of users (backend/src/follows/follows.service.ts).
use event_now.Prelude.{
  ℕ, ◌≡◌, ◌≢◌, ◌↔◌, sym, subst, Bool, true, ◌&&◌, some, List, [], ◌∷◌, ◌==◌, is_some, All, map,
  filterb, Option-cases, Bool-cases, inl, inr, arith,
}
use event_now.Prisma.{Prisma}
use event_now.Prisma.Laws.{lists}
use event_now.Database.{Db, Follow}
use event_now.Follows.{
  is_pair, has, is_following, is_friend, get_following_ids, follower_ids, get_friend_ids, flag_user,
}

pub Bool-ext : (a b : Bool) → (a ≡ true → b ≡ true) → (b ≡ true → a ≡ true) → a ≡ b
Bool-ext a b f g = elim (Bool-cases a) [
  | inl e ↦ ground (arith, f e)
  | inr e ↦ elim (Bool-cases b) [ inl e' ↦ ground (arith, g e') | inr e' ↦ ground arith ]
]

module _ (p : Prisma) where
  -- A follow of the table is listed under the user that its column names.
  pub has-map :
      (key : Follow → ℕ) (t : p.Table Follow) (q : Follow → Bool) (k : ℕ) (f : Follow)
      (es : List (ℕ × Follow))
      → All (λ e. (p.find_unique e.0 t ≡ some e.1) × (q e.1 ≡ true)) es
      → p.find_unique k t ≡ some f
      → lists k es ≡ true
      → has (map (λ (e : ℕ × Follow). key e.1) es) (key f) ≡ true
  has-map key t q k f [] all found listed = absurd (ground arith)
  has-map key t q k f ((j, g) ∷ es) ((fg, holds), rest) found listed = elim (Bool-cases (j == k)) [
    | inl same ↦ ground arith
    | inr other ↦ ground (arith, has-map key t q k f es rest found (ground arith))
  ]

  pub map-has :
      (key : Follow → ℕ) (t : p.Table Follow) (q : Follow → Bool) (x : ℕ) (es : List (ℕ × Follow))
      → All (λ e. (p.find_unique e.0 t ≡ some e.1) × (q e.1 ≡ true)) es
      → has (map (λ (e : ℕ × Follow). key e.1) es) x ≡ true
      → (k : ℕ) × (f : Follow) × (p.find_unique k t ≡ some f) × (q f ≡ true) × (key f ≡ x)
  map-has key t q x [] all h = absurd (ground arith)
  map-has key t q x ((j, g) ∷ es) ((fg, holds), rest) h = elim (Bool-cases (key g == x)) [
    | inl same ↦ (j, g, fg, holds, ground arith)
    | inr other ↦ map-has key t q x es rest (ground arith)
  ]

  -- The column of the listed records names a user exactly if a record does.
  pub has-find_many :
      (key : Follow → ℕ) (t : p.Table Follow) (q : Follow → Bool) (x : ℕ)
      → (has (map (λ (e : ℕ × Follow). key e.1) (p.find_many q t)) x ≡ true)
        ↔ ((k : ℕ) × (f : Follow) × (p.find_unique k t ≡ some f) × (q f ≡ true) × (key f ≡ x))
  has-find_many key t q x = (
    map-has key t q x (p.find_many q t) (p.find_many-sound q t),
    λ (k, f, found, holds, e).
        subst (λ y. has (map (λ (e : ℕ × Follow). key e.1) (p.find_many q t)) y ≡ true) e
          (has-map key t q k f (p.find_many q t) (p.find_many-sound q t) found
            (p.find_many-complete q t k f found holds)),
  )

  pub find_first_iff :
      (q : Follow → Bool) (t : p.Table Follow)
      → (is_some (p.find_first q t) ≡ true)
        ↔ ((k : ℕ) × (f : Follow) × (p.find_unique k t ≡ some f) × (q f ≡ true))
  find_first_iff q t = (
    λ h. elim (Option-cases (p.find_first q t)) [
      | inl e ↦ absurd (ground (arith, e))
      | inr ((k, f), e) ↦ let (found, holds) = p.find_first-some q t k f e in (k, f, found, holds)
    ],
    λ (k, f, found, holds). elim (Option-cases (p.find_first q t)) [
      | inl e ↦ absurd (ground (arith, p.find_first-none q t k f e found))
      | inr (r, e) ↦ ground (arith, e)
    ],
  )

has-filterb : (q : ℕ → Bool) (xs : List ℕ) (x : ℕ) → has (filterb q xs) x ≡ (q x && has xs x)
has-filterb q [] x = ground arith
has-filterb q (y ∷ ys) x = elim (Bool-cases (q y)) [
  | inl e ↦ ground (arith, e, has-filterb q ys x)
  | inr e ↦ ground (arith, e, has-filterb q ys x)
]

module _ {p : Prisma} where
  get_following_ids-is_following :
      (user_id x : ℕ) (d : Db p) → has (get_following_ids user_id d) x ≡ is_following user_id x d
  unfolding get_following_ids is_following
  get_following_ids-is_following user_id x d =
      let t = d.social.follow in
      let listed = has-find_many p (λ f. f.following_id) t (λ f. f.follower_id == user_id) x in
      let first = find_first_iff p (is_pair user_id x) t in
      Bool-ext _ _
        (λ h. let (k, f, found, holds, e) = listed.0 h in first.1 (k, f, found, ground arith))
        (λ h.
          let (k, f, found, holds) = first.0 h in
          listed.1 (k, f, found, ground arith, ground arith))

  follower_ids-is_following :
      (user_id x : ℕ) (d : Db p) → has (follower_ids user_id d) x ≡ is_following x user_id d
  unfolding is_following
  follower_ids-is_following user_id x d =
      let t = d.social.follow in
      let listed = has-find_many p (λ f. f.follower_id) t (λ f. f.following_id == user_id) x in
      let first = find_first_iff p (is_pair x user_id) t in
      Bool-ext _ _
        (λ h. let (k, f, found, holds, e) = listed.0 h in first.1 (k, f, found, ground arith))
        (λ h.
          let (k, f, found, holds) = first.0 h in
          listed.1 (k, f, found, ground arith, ground arith))

  -- The list of friends, which is made from two lists of follows, has exactly the users for whom
  -- `isFriend` holds.
  pub get_friend_ids-is_friend :
      (user_id x : ℕ) (d : Db p)
      → user_id ≢ x
      → has (get_friend_ids user_id d) x ≡ is_friend user_id x d
  unfolding get_friend_ids is_friend
  get_friend_ids-is_friend user_id x d differ = ground (
    arith,
    has-filterb (has (get_following_ids user_id d)) (follower_ids user_id d) x,
    get_following_ids-is_following user_id x d,
    follower_ids-is_following user_id x d,
  )

  -- Friendship is symmetric.
  pub is_friend-is_friend : (a b : ℕ) (d : Db p) → is_friend a b d ≡ is_friend b a d
  unfolding is_friend
  is_friend-is_friend a b d = ground arith

  followed-is_following :
      (user_id : ℕ) (ids : List ℕ) (x : ℕ) (d : Db p)
      → has ids x ≡ true
      → has
          (map
            (λ (e : ℕ × Follow). e.1.following_id)
            (p.find_many (λ f. f.follower_id == user_id && has ids f.following_id) d.social.follow))
          x
        ≡ is_following user_id x d
  unfolding is_following
  followed-is_following user_id ids x d member =
      let t = d.social.follow in
      let asked : Follow → Bool = λ f. f.follower_id == user_id && has ids f.following_id in
      let listed = has-find_many p (λ f. f.following_id) t asked x in
      let first = find_first_iff p (is_pair user_id x) t in
      Bool-ext _ _
        (λ h. let (k, f, found, holds, e) = listed.0 h in first.1 (k, f, found, ground arith))
        (λ h.
          let (k, f, found, holds) = first.0 h in
          let e : f.following_id ≡ x = ground arith in
          let mine : f.follower_id ≡ user_id = ground arith in
          let named : has ids f.following_id ≡ true =
            subst (λ y. has ids y ≡ true) (sym e) member in
          listed.1 (k, f, found, ground arith, e))

  -- The flags of a listed user are the answers of `isFollowing` and `isFriend` for the user who asks.
  pub flag_user-is_friend :
      (current_user_id : ℕ) (ids : List ℕ) (id : ℕ) (d : Db p)
      → has ids id ≡ true
      → current_user_id ≢ id
      → flag_user current_user_id ids d id ≡ record {
        id = id;
        is_following_by_current_user = is_following current_user_id id d;
        is_friend_with_current_user = is_friend current_user_id id d;
      }
  unfolding flag_user
  flag_user-is_friend current_user_id ids id d member differ = ground (
    arith,
    followed-is_following current_user_id ids id d member,
    get_friend_ids-is_friend current_user_id id d differ,
  )
