-- ===== src/Users/Bans.antt =====
-- Who can be banned, and that a second call lifts the ban (backend/src/users/users.service.ts).
use event_now.Prelude.{
  ℕ, ◌≡◌, ◌≢◌, ◌⊎◌, sym, subst, true, false, not, none, some, ◌==◌, is_some, ◌&&◌, Option-cases,
  Bool-cases, inl, inr, arith,
}
use event_now.Prelude.Outcome.{ok, err, final}
use event_now.Prisma.{Prisma}
use event_now.Prisma.Laws.{find_unique-modify_self}
use event_now.Http.{HttpException, bad_request, not_found, forbidden}
use event_now.Http
use event_now.Database.{Db, User}
use event_now.Users.{is_admin, ban, ban_user}

ban-lawful :
    (u v : User) (now : ℕ)
    → is_admin u.role ≡ false
    → ban (not u.is_banned) now u ≡ v
    → (is_some v.banned_at ≡ v.is_banned) × ((is_admin v.role && v.is_banned) ≡ false)
ban-lawful u v now plain same = elim (Bool-cases u.is_banned) [
  | inl e ↦ (ground (arith, same, e), ground (arith, same, e))
  | inr e ↦ (ground (arith, same, e), ground (arith, same, e, plain))
]

lifted :
    (u w : User) (now later : ℕ)
    → u.is_banned ≡ false
    → u.banned_at ≡ none
    → ban true now u ≡ w
    → ban (not w.is_banned) later w ≡ u
lifted u w now later free never banned =
    subst (λ x. ban (not x.is_banned) later x ≡ u) banned
      (sym (λ i. record u { is_banned = free i; banned_at = never i }))

module _ {p : Prisma} where
  abbrev with_users : Db p → p.Table User → Db p
  with_users d t = record d { user = t }

  ban_user_cases :
      (target current now : ℕ) (d : Db p)
      → ((u : User) × (p.find_unique target d.user ≡ some u)
          × (is_admin u.role ≡ false)
          × (target ≢ current)
          × (ban_user target current now d
              ≡ ok tt (with_users d (p.modify target (ban (not u.is_banned) now) d.user))))
        ⊎ ((e : HttpException) × (ban_user target current now d ≡ err e d))
  unfolding ban_user
  ban_user_cases target current now d = elim (Bool-cases (target == current)) [
    | inl self ↦ inr (bad_request Http.bans_self, ground (arith, self))
    | inr differ ↦ elim (Option-cases (p.find_unique target d.user)) [
      | inl e ↦ inr (not_found Http.user_missing, ground (arith, differ, e))
      | inr (u, e) ↦ elim (Bool-cases (is_admin u.role)) [
        | inl admin ↦ inr (forbidden Http.admin_not_bannable, ground (arith, differ, e, admin))
        | inr plain ↦ inl (u, e, plain, ground arith, ground (arith, differ, e, plain))
      ]
    ]
  ]

  -- A user is banned exactly while there is a time of the ban, and no administrator is.
  abbrev pub AreLawful : Db p → Type 0
  AreLawful d =
      (k : ℕ) (u : User)
      → p.find_unique k d.user ≡ some u
      → (is_some u.banned_at ≡ u.is_banned) × ((is_admin u.role && u.is_banned) ≡ false)

  -- Whatever `banUser` answers: a user is banned exactly while the time of the ban is recorded, and
  -- no administrator is banned.
  pub ban_user-AreLawful :
      (target current now : ℕ) (d : Db p)
      → AreLawful d
      → AreLawful (final (ban_user target current now d))
  ban_user-AreLawful target current now d all = elim (ban_user_cases target current now d) [
    | inr (e, run) ↦ subst (λ r. AreLawful (final r)) (sym run) all
    | inl (u, found, plain, differ, run) ↦
        subst (λ r. AreLawful (final r)) (sym run)
          (λ k v fv. elim (Bool-cases (target == k)) [
            | inr other ↦
                all k v
                  (ground (arith, p.find_unique-modify k target (ban (not u.is_banned) now) d.user))
            | inl same ↦
                ban-lawful u v now plain
                  (ground (arith, p.find_unique-modify k target (ban (not u.is_banned) now) d.user))
          ])
  ]

  -- A second call for the same user, at whatever time and by whomever it is made, undoes the first
  -- one for a user who was not banned.
  pub ban_user-ban_user :
      (target current current' now later : ℕ) (u : User) (d d' d'' : Db p)
      → p.find_unique target d.user ≡ some u
      → u.is_banned ≡ false
      → u.banned_at ≡ none
      → ban_user target current now d ≡ ok tt d'
      → ban_user target current' later d' ≡ ok tt d''
      → (p.find_unique target d'.user ≡ some (ban true now u))
        × (p.find_unique target d''.user ≡ some u)
  ban_user-ban_user target current current' now later u d d' d'' found free never h h' =
      elim (ban_user_cases target current now d) [
        | inr (e, run) ↦ absurd (ground (arith, h, run))
        | inl (v, fv, plain, differ, run) ↦ elim (ban_user_cases target current' later d') [
          | inr (e, run') ↦ absurd (ground (arith, h', run'))
          | inl (w, fw, plain', differ', run') ↦
              let first : p.find_unique target d'.user ≡ some (ban true now u) = ground (
                arith,
                found,
                fv,
                free,
                h,
                run,
                find_unique-modify_self p target (ban (not v.is_banned) now) d.user v fv,
              ) in
              let banned : ban true now u ≡ w = ground (arith, first, fw) in
              (
                first,
                ground (
                  arith,
                  h',
                  run',
                  lifted u w now later free never banned,
                  find_unique-modify_self p target (ban (not w.is_banned) later) d'.user w fw,
                ),
              )
        ]
      ]
