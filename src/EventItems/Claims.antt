-- ===== src/EventItems/Claims.antt =====
-- Who brings an item (backend/src/event-items/event-items.service.ts).
use Prim.Native.String.{String}
use event_now.Prelude.{
  ℕ, ◌≡◌, ◌≢◌, ◌⊎◌, refl, Bool, false, not, ◌&&◌, some, ◌==◌, is_id, is_some, Option-cases,
  Bool-cases, inl, inr, arith,
}
use event_now.Prelude.Outcome.{ok, err, final}
use event_now.Prisma.{Prisma}
use event_now.Http.{HttpException, bad_request, not_found, forbidden, conflict, record_not_found}
use event_now.Http
use event_now.Database.{Db, Event, EventItem, EventItemList, ItemStatus}
use event_now.Participants.{check_participant_cases}
use event_now.EventItems.{
  ShownList, is_claimed, format_list, check_access, get_or_create_list, item_of_event, show_list,
  claim, claim_item,
}

-- What a claim by `user_id` makes of an item that it found as `i`.
abbrev toggled : ℕ → EventItem → EventItem → EventItem
toggled user_id i = claim (is_claimed i.status && is_id i.claimed_by_id user_id) user_id

module _ {p : Prisma} where
  -- An access check or a look-up changes nothing.
  check_access_cases :
      (user_id event_id : ℕ) (d : Db p)
      → ((ev : Event) × (check_access user_id event_id d ≡ ok ev d))
        ⊎ ((e : HttpException) × (check_access user_id event_id d ≡ err e d))
  unfolding check_access
  check_access_cases = check_participant_cases Http.not_accepted_participant

  item_of_event_cases :
      (event_id item_id : ℕ) (d : Db p)
      → ((i : EventItem) × (item_of_event event_id item_id d ≡ ok i d)
          × (p.find_unique item_id d.event_item ≡ some i))
        ⊎ ((e : HttpException) × (item_of_event event_id item_id d ≡ err e d))
  unfolding item_of_event
  item_of_event_cases event_id item_id d =
      elim (Option-cases (p.find_unique item_id d.event_item)) [
        | inl e ↦ inr (not_found Http.item_missing, ground (arith, e))
        | inr (i, e) ↦ elim (Option-cases (p.find_unique i.list_id d.event_item_list)) [
          | inl e2 ↦ inr (record_not_found, ground (arith, e, e2))
          | inr (l, e2) ↦ elim (Bool-cases (l.event_id == event_id)) [
            | inl same ↦ inl (i, ground (arith, e, e2, same), e)
            | inr other ↦ inr (not_found Http.item_missing, ground (arith, e, e2, other))
          ]
        ]
      ]

  show_list-keeps :
      (after : String → String → Bool) (user_id event_id : ℕ) (d : Db p)
      → (l : ShownList) × (ls : p.Table EventItemList) × (show_list after user_id event_id d
          ≡ ok l (record d { event_item_list = ls }))
  unfolding show_list get_or_create_list
  show_list-keeps after user_id event_id d =
      elim (Option-cases (p.find_first (λ l. l.event_id == event_id) d.event_item_list)) [
        | inl e ↦ (
          format_list after (p.new_id d.event_item_list) event_id user_id (record d {
            event_item_list = p.create (record { event_id = event_id }) d.event_item_list;
          }),
          p.create (record { event_id = event_id }) d.event_item_list,
          ground (arith, e),
        )
        | inr ((id, l), e) ↦
            (format_list after id event_id user_id d, d.event_item_list, ground (arith, e))
      ]

  claim_item_cases :
      (C : p.Table EventItem → Type 0) (after : String → String → Bool)
      (user_id event_id item_id : ℕ) (d : Db p)
      → C d.event_item
      → ((i : EventItem)
          → p.find_unique item_id d.event_item ≡ some i
          → (is_claimed i.status && not (is_id i.claimed_by_id user_id)) ≡ false
          → C (p.modify item_id (toggled user_id i) d.event_item))
      → C (final (claim_item after user_id event_id item_id d)).event_item
  unfolding claim_item
  claim_item_cases C after user_id event_id item_id d kept done =
      elim (check_access_cases user_id event_id d) [
        | inr (x, e) ↦ ground (arith, e, kept)
        | inl (ev, e) ↦ elim (item_of_event_cases event_id item_id d) [
          | inr (x, e2) ↦ ground (arith, e, e2, kept)
          | inl (i, e2, found) ↦
              let d1 = record d {
                event_item = p.modify item_id (toggled user_id i) d.event_item;
              } in
              let (l, ls, shown) = show_list-keeps after user_id event_id d1 in
              ground (arith, e, e2, found, shown, kept, done i found)
        ]
      ]

  -- Nobody takes an item that another participant brings: the items stay as they are.
  pub claim_item-keeps :
      (after : String → String → Bool) (user_id event_id item_id owner : ℕ) (i : EventItem)
      (d : Db p)
      → p.find_unique item_id d.event_item ≡ some i
      → i.status ≡ ItemStatus.claimed
      → i.claimed_by_id ≡ some owner
      → owner ≢ user_id
      → (final (claim_item after user_id event_id item_id d)).event_item ≡ d.event_item
  claim_item-keeps after user_id event_id item_id owner i d found status by other =
      claim_item_cases (λ t. t ≡ d.event_item) after user_id event_id item_id d refl
        (λ j found' free. absurd (ground arith))

  -- Every item that is marked as claimed has a claimant, and no other item has one.
  abbrev pub HaveClaimants : Db p → Type 0
  HaveClaimants d =
      (k : ℕ) (i : EventItem)
      → p.find_unique k d.event_item ≡ some i
      → is_some i.claimed_by_id ≡ is_claimed i.status

  -- Claiming, giving back and every refused call keep it so that exactly the claimed items have a
  -- claimant.
  pub claim_item-HaveClaimants :
      (after : String → String → Bool) (user_id event_id item_id : ℕ) (d : Db p)
      → HaveClaimants d
      → HaveClaimants (final (claim_item after user_id event_id item_id d))
  claim_item-HaveClaimants after user_id event_id item_id d all =
      claim_item_cases
        (λ t.
          (k : ℕ) (i : EventItem)
          → p.find_unique k t ≡ some i
          → is_some i.claimed_by_id ≡ is_claimed i.status)
        after user_id event_id item_id d all
        (λ i found free k j found'.
          ground (arith, all k j, p.find_unique-modify k item_id (toggled user_id i) d.event_item))
