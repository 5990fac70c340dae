-- ===== src/Users.antt =====
-- backend/src/users/users.service.ts: administrators ban users, and lift the ban by the same call.
-- The time is an argument.
pub mod Bans
use event_now.Prelude.{ℕ, Bool, true, false, not, Option, none, some, List, [], ◌==◌, if◌then◌else◌}
use event_now.Prelude.Outcome.{Outcome, ok, err, throw_if, or_throw, pure, get, ◌>>=◌, ◌>>◌}
use event_now.Prisma.{Prisma}
use event_now.Http.{HttpException, bad_request, not_found, forbidden, record_not_found}
use event_now.Http
use event_now.Database.{Db, Handler, User, Role, users, find_or_throw, update}
use event_now.Database

abbrev pub is_admin : Role → Bool
is_admin Role.admin = true
is_admin _ = false

-- The `data` of `banUser`, for the user as it was found.
abbrev pub ban : Bool → ℕ → User → User
ban is_banned now u = record u {
  is_banned = is_banned;
  banned_at = if is_banned then some now else none;
}

module _ {p : Prisma} where
  pub get_banned_users : Handler p (List (ℕ × User))
  get_banned_users = do db ← get; pure (p.find_many (λ u. u.is_banned) db.user)

  pub ban_user : ℕ → ℕ → ℕ → Handler p (Unit {0})
  ban_user target_user_id current_user_id now = do
    throw_if (target_user_id == current_user_id) (bad_request Http.bans_self)
    user ← find_or_throw users target_user_id (not_found Http.user_missing)
    throw_if (is_admin user.role) (forbidden Http.admin_not_bannable)
    update users target_user_id (ban (not user.is_banned) now)
