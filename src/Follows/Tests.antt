-- ===== src/Follows/Tests.antt =====
-- The theorems on follows applied to a small database (backend/src/follows/follows.service.ts).
use event_now.Prelude.{◌≡◌, false, some, List, [], ◌∷◌, arith}
use event_now.Prisma.Rows.{in_memory}
use event_now.Database.{Db}
use event_now.Follows.{new_follow, is_following}
use event_now.Follows.Pairs.{
  FollowCall, follow_call, unfollow_call, set_notifications_call, apply_all, IsUnique,
}
use event_now.Follows.Calls.{serve_all, serve_all-apply_all, known}
use event_now.Tests.{sold}

-- User 8 follows user 7.
abbrev followed : Db in_memory
followed = record sold { social = record sold.social { follow = some (new_follow 8 7) ∷ [] } }

abbrev calls : List FollowCall
calls =
    follow_call 7 8
    ∷ follow_call 7 7
    ∷ follow_call 7 100
    ∷ set_notifications_call 7 8 false
    ∷ unfollow_call 8 7
    ∷ []

followed-IsUnique : IsUnique in_memory followed.social.follow
followed-IsUnique j k f g fj gk same same' = ground arith

serve_all-apply_all_example :
    is_following 7 8 (serve_all calls followed)
    ≡ apply_all (known followed) calls (λ a b. is_following a b followed) 7 8
serve_all-apply_all_example = serve_all-apply_all calls followed 7 8 followed-IsUnique
