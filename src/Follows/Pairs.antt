-- ===== src/Follows/Pairs.antt =====
-- The follows as a relation between users (backend/src/follows/follows.service.ts).
use event_now.Prelude.{
  ℕ, ◌≡◌, sym, ◌∙◌, Bool, not, ◌&&◌, ◌||◌, none, some, List, [], ◌∷◌, ◌==◌, is_some, Option-cases,
  Bool-cases, inl, inr, arith,
}
use event_now.Prisma.{Prisma}
use event_now.Prisma.Laws.{find_unique-create_self, find_unique-create_old}
use event_now.Database.{Follow}
use event_now.Follows.{is_pair, new_follow, with_notifications}
use event_now.Follows.Friends.{Bool-ext, find_first_iff}

-- A call of the service that writes, with the follower and the user who is followed.
pub data FollowCall : Type 0 where
  follow_call unfollow_call : ℕ → ℕ → FollowCall
  set_notifications_call : ℕ → ℕ → Bool → FollowCall

-- Who follows whom, as a relation.
abbrev pub Edges : Type 0
Edges = ℕ → ℕ → Bool

-- What a call is to do to the relation, for the users that are known.
abbrev pub apply : (ℕ → Bool) → FollowCall → Edges → Edges
apply known (follow_call a b) e x y = (not (a == b) && known b && (a == x && b == y)) || e x y
apply known (unfollow_call a b) e x y = not (a == x && b == y) && e x y
apply known (set_notifications_call a b enabled) e x y = e x y

abbrev pub apply_all : (ℕ → Bool) → List FollowCall → Edges → Edges
apply_all known [] e = e
apply_all known (c ∷ cs) e = apply_all known cs (apply known c e)

module _ (p : Prisma) where
  abbrev pub edge : p.Table Follow → Edges
  edge t x y = is_some (p.find_first (is_pair x y) t)

  -- No pair of users is recorded twice (`@@unique([followerId, followingId])`).
  abbrev pub IsUnique : p.Table Follow → Type 0
  IsUnique t =
      (j k : ℕ) (f g : Follow)
      → p.find_unique j t ≡ some f
      → p.find_unique k t ≡ some g
      → f.follower_id ≡ g.follower_id
      → f.following_id ≡ g.following_id
      → j ≡ k

  pub edge-create :
      (a b x y : ℕ) (t : p.Table Follow)
      → edge (p.create (new_follow a b) t) x y ≡ ((a == x && b == y) || edge t x y)
  edge-create a b x y t =
      let t' = p.create (new_follow a b) t in
      let after = find_first_iff p (is_pair x y) t' in
      let before = find_first_iff p (is_pair x y) t in
      Bool-ext _ _
        (λ h.
          let (k, f, found, holds) = after.0 h in
          elim (Bool-cases (p.new_id t == k)) [
            | inl new ↦ ground (arith, p.find_unique-create k (new_follow a b) t)
            | inr old ↦
                let was =
                  before.1
                    (k, f, ground (arith, p.find_unique-create k (new_follow a b) t), holds) in
                ground (arith, was)
          ])
        (λ h. elim (Bool-cases (a == x && b == y)) [
          | inl new ↦ after.1 (
            p.new_id t,
            new_follow a b,
            find_unique-create_self p (new_follow a b) t,
            ground arith,
          )
          | inr old ↦
              let (k, f, found, holds) = before.0 (ground arith) in
              after.1 (k, f, find_unique-create_old p k (new_follow a b) f t found, holds)
        ])

  pub edge-delete :
      (a b x y k : ℕ) (f : Follow) (t : p.Table Follow)
      → IsUnique t
      → p.find_first (is_pair a b) t ≡ some (k, f)
      → edge (p.delete k t) x y ≡ (not (a == x && b == y) && edge t x y)
  edge-delete a b x y k f t unique first =
      let (fk, pair) = p.find_first-some (is_pair a b) t k f first in
      let after = find_first_iff p (is_pair x y) (p.delete k t) in
      let before = find_first_iff p (is_pair x y) t in
      Bool-ext _ _
        (λ h.
          let (j, g, fj, holds) = after.0 h in
          elim (Bool-cases (k == j)) [
            | inl same ↦ absurd (ground (arith, fj, p.find_unique-delete j k t))
            | inr other ↦
                let was = before.1 (j, g, ground (arith, fj, p.find_unique-delete j k t), holds) in
                elim (Bool-cases (a == x && b == y)) [
                  | inr differ ↦ ground (arith, was)
                  | inl e ↦ absurd (
                      ground (
                        arith,
                        unique k j f g fk (ground (arith, fj, p.find_unique-delete j k t))
                            (ground arith) (ground arith),
                      ))
                ]
          ])
        (λ h.
          let (j, g, fj, holds) = before.0 (ground arith) in
          elim (Bool-cases (k == j)) [
            | inl same ↦ absurd (ground arith)
            | inr other ↦ after.1 (j, g, ground (arith, fj, p.find_unique-delete j k t), holds)
          ])

  pub edge-modify :
      (x y k : ℕ) (enabled : Bool) (t : p.Table Follow)
      → edge (p.modify k (with_notifications enabled) t) x y ≡ edge t x y
  edge-modify x y k enabled t =
      let t' = p.modify k (with_notifications enabled) t in
      let after = find_first_iff p (is_pair x y) t' in
      let before = find_first_iff p (is_pair x y) t in
      Bool-ext _ _
        (λ h.
          let (j, g, fj, holds) = after.0 h in
          elim (Option-cases (p.find_unique j t)) [
            | inl e ↦
                absurd (ground (arith, fj, p.find_unique-modify j k (with_notifications enabled) t))
            | inr (f, e) ↦ before.1 (
              j,
              f,
              e,
              ground (arith, fj, p.find_unique-modify j k (with_notifications enabled) t),
            )
          ])
        (λ h.
          let (j, g, fj, holds) = before.0 h in
          elim (Bool-cases (k == j)) [
            | inl same ↦ after.1 (
              j,
              with_notifications enabled g,
              ground (arith, fj, p.find_unique-modify j k (with_notifications enabled) t),
              holds,
            )
            | inr other ↦ after.1 (
              j,
              g,
              ground (arith, fj, p.find_unique-modify j k (with_notifications enabled) t),
              holds,
            )
          ])

  pub create-IsUnique :
      (a b : ℕ) (t : p.Table Follow)
      → p.find_first (is_pair a b) t ≡ none
      → IsUnique t
      → IsUnique (p.create (new_follow a b) t)
  create-IsUnique a b t none_yet unique j k f g fj gk same same' = ground (
    arith,
    p.find_unique-create j (new_follow a b) t,
    p.find_unique-create k (new_follow a b) t,
    p.find_first-none (is_pair a b) t j f none_yet,
    p.find_first-none (is_pair a b) t k g none_yet,
    unique j k f g,
  )

  pub delete-IsUnique : (i : ℕ) (t : p.Table Follow) → IsUnique t → IsUnique (p.delete i t)
  delete-IsUnique i t unique j k f g fj gk same same' =
      ground (arith, p.find_unique-delete j i t, p.find_unique-delete k i t, unique j k f g)

  modified :
      (i j : ℕ) (enabled : Bool) (t : p.Table Follow) (f : Follow)
      → p.find_unique j (p.modify i (with_notifications enabled) t) ≡ some f
      → (g : Follow) × (p.find_unique j t ≡ some g)
        × (g.follower_id ≡ f.follower_id)
        × (g.following_id ≡ f.following_id)
  modified i j enabled t f h = elim (Option-cases (p.find_unique j t)) [
    | inl e ↦ absurd (ground (arith, p.find_unique-modify j i (with_notifications enabled) t))
    | inr (g, e) ↦ (
      g,
      e,
      ground (arith, p.find_unique-modify j i (with_notifications enabled) t),
      ground (arith, p.find_unique-modify j i (with_notifications enabled) t),
    )
  ]

  pub modify-IsUnique :
      (i : ℕ) (enabled : Bool) (t : p.Table Follow)
      → IsUnique t
      → IsUnique (p.modify i (with_notifications enabled) t)
  modify-IsUnique i enabled t unique j k f g fj gk same same' =
      let (f', fj', a, b) = modified i j enabled t f fj in
      let (g', gk', a', b') = modified i k enabled t g gk in
      unique j k f' g' fj' gk' (a ∙ same ∙ sym a') (b ∙ same' ∙ sym b')
