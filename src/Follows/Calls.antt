-- ===== src/Follows/Calls.antt =====
-- The calls of backend/src/follows/follows.service.ts one after the other, against the relation that
-- they are to keep.
use event_now.Prelude.{
  ℕ, ◌≡◌, refl, ◌∙◌, ap, Bool, List, [], ◌∷◌, ◌==◌, is_some, Option-cases, Bool-cases, inl, inr,
  arith,
}
use event_now.Prelude.Outcome.{final}
use event_now.Prisma.{Prisma}
use event_now.Database.{Db}
use event_now.Follows.{is_pair, is_following, follow, unfollow, set_notifications_enabled}
use event_now.Follows.Pairs.{
  FollowCall, follow_call, unfollow_call, set_notifications_call, apply, apply_all, edge, IsUnique,
  edge-create, edge-delete, edge-modify, create-IsUnique, delete-IsUnique, modify-IsUnique,
}

module _ {p : Prisma} where
  -- The database after a call, whether it returned or threw.
  pub serve : FollowCall → Db p → Db p
  unfolding follow unfollow set_notifications_enabled
  serve (follow_call a b) d = final (follow a b d)
  serve (unfollow_call a b) d = final (unfollow a b d)
  serve (set_notifications_call a b enabled) d = final (set_notifications_enabled a b enabled d)

  pub serve_all : List FollowCall → Db p → Db p
  unfolding serve
  serve_all [] d = d
  serve_all (c ∷ cs) d = serve_all cs (serve c d)

  abbrev pub known : Db p → ℕ → Bool
  known d k = is_some (p.find_unique k d.user)

  -- What one call does to the users, to the uniqueness of the pairs, and to the relation.
  record Served (c : FollowCall) (d d' : Db p) : Type 0 where
    users_stay : d'.user ≡ d.user
    unique : IsUnique p d'.social.follow
    edges : (x y : ℕ) → edge p d'.social.follow x y ≡ apply (known d) c (edge p d.social.follow) x y

  serve-Served : (c : FollowCall) (d : Db p) → IsUnique p d.social.follow → Served c d (serve c d)
  unfolding serve
  serve-Served (follow_call a b) d u =
      let t = d.social.follow in
      elim (Bool-cases (a == b)) [
        | inl self ↦ record {
          users_stay = ground (arith, self);
          unique = ground (arith, self, u);
          edges = λ x y. ground (arith, self);
        }
        | inr differ ↦ elim (Option-cases (p.find_unique b d.user)) [
          | inl e ↦ record {
            users_stay = ground (arith, differ, e);
            unique = ground (arith, differ, e, u);
            edges = λ x y. ground (arith, differ, e);
          }
          | inr (v, e) ↦ elim (Option-cases (p.find_first (is_pair a b) t)) [
            | inr ((k, f), e2) ↦ record {
              users_stay = ground (arith, differ, e, e2);
              unique = ground (arith, differ, e, e2, u);
              edges = λ x y. ground (arith, differ, e, e2);
            }
            | inl e2 ↦ record {
              users_stay = ground (arith, differ, e, e2);
              unique = ground (arith, differ, e, e2, create-IsUnique p a b t e2 u);
              edges = λ x y. ground (arith, differ, e, e2, edge-create p a b x y t);
            }
          ]
        ]
      ]
  serve-Served (unfollow_call a b) d u =
      let t = d.social.follow in
      elim (Option-cases (p.find_first (is_pair a b) t)) [
        | inl e ↦ record {
          users_stay = ground (arith, e);
          unique = ground (arith, e, u);
          edges = λ x y. ground (arith, e);
        }
        | inr ((k, f), e) ↦
            let (found, holds) = p.find_first-some (is_pair a b) t k f e in
            record {
              users_stay = ground (arith, e, found);
              unique = ground (arith, e, found, delete-IsUnique p k t u);
              edges = λ x y. ground (arith, e, found, edge-delete p a b x y k f t u e);
            }
      ]
  serve-Served (set_notifications_call a b enabled) d u =
      let t = d.social.follow in
      elim (Option-cases (p.find_first (is_pair a b) t)) [
        | inl e ↦ record {
          users_stay = ground (arith, e);
          unique = ground (arith, e, u);
          edges = λ x y. ground (arith, e);
        }
        | inr ((k, f), e) ↦
            let (found, holds) = p.find_first-some (is_pair a b) t k f e in
            record {
              users_stay = ground (arith, e, found);
              unique = ground (arith, e, found, modify-IsUnique p k enabled t u);
              edges = λ x y. ground (arith, e, found, edge-modify p x y k enabled t);
            }
      ]

  serve_all-Served :
      (cs : List FollowCall) (d : Db p)
      → IsUnique p d.social.follow
      → IsUnique p (serve_all cs d).social.follow
        × (edge p (serve_all cs d).social.follow ≡ apply_all (known d) cs (edge p d.social.follow))
  unfolding serve_all
  serve_all-Served [] d u = (u, refl)
  serve_all-Served (c ∷ cs) d u =
      let s = serve-Served c d u in
      let (u', steps) = serve_all-Served cs (serve c d) s.unique in
      let same : edge p (serve c d).social.follow ≡ apply (known d) c (edge p d.social.follow) =
        λ i x y. s.edges x y i in
      (
        u',
        steps
            ∙ ap
                (λ users.
                  apply_all (λ k. is_some (p.find_unique k users)) cs
                    (edge p (serve c d).social.follow))
                s.users_stay
            ∙ ap (apply_all (known d) cs) same,
      )

  -- The service implements a relation on users: after any calls, failed ones included, `isFollowing`
  -- answers what the relation holds that adds a pair for each follow of another known user and
  -- removes it for each unfollow. At the start no pair is recorded twice.
  pub serve_all-apply_all :
      (cs : List FollowCall) (d : Db p) (x y : ℕ)
      → IsUnique p d.social.follow
      → is_following x y (serve_all cs d) ≡ apply_all (known d) cs (λ a b. is_following a b d) x y
  unfolding is_following
  serve_all-apply_all cs d x y u = ap (λ e. e x y) (serve_all-Served cs d u).1

  -- No calls record a pair of users twice.
  pub serve_all-IsUnique :
      (cs : List FollowCall) (d : Db p)
      → IsUnique p d.social.follow
      → IsUnique p (serve_all cs d).social.follow
  serve_all-IsUnique cs d u = (serve_all-Served cs d u).0
