-- ===== src/EventItems.antt =====
-- backend/src/event-items/event-items.service.ts: the list of things that the participants of a
-- community event bring. The message to the gateway is left out: it is the answer of the call with
-- every `isClaimedByMe` false, as `neutralize_list` writes it.
pub mod Claims
mod Tests
use Prim.Native.String.{String}
use event_now.Prelude.{
  ℕ, Bool, true, false, not, ◌&&◌, Option, none, some, List, [], ◌∷◌, ◌==◌, is_id, is_some,
  if◌then◌else◌, map, sort_by,
}
use event_now.Prelude.Outcome.{Outcome, ok, err, throw_if, or_throw, pure, get, ◌>>=◌, ◌>>◌}
use event_now.Prisma.{Prisma}
use event_now.Http.{HttpException, bad_request, not_found, forbidden, conflict, record_not_found}
use event_now.Http
use event_now.Participants.{check_participant}
use event_now.Database.{
  Db, Handler, Event, EventType, EventItem, EventItemList, ItemStatus, ParticipationRequest,
  RequestStatus, events, item_lists, items, find_or_throw, create, update, delete,
}
use event_now.Database

pub record CreateItemDto : Type 0 where
  pub name : String
  pub quantity : Option ℕ
  pub unit : Option String
  pub note : Option String

pub record UpdateItemDto : Type 0 where
  pub name : Option String
  pub quantity : Option ℕ
  pub unit : Option String
  pub note : Option String

-- An item of the answer.
pub record ShownItem : Type 0 where
  pub id : ℕ
  pub item : EventItem
  pub is_claimed_by_me : Bool

pub record ShownList : Type 0 where
  pub id : ℕ
  pub event_id : ℕ
  pub items : List ShownItem

abbrev pub is_claimed : ItemStatus → Bool
is_claimed ItemStatus.claimed = true
is_claimed ItemStatus.unclaimed = false

-- The order of the answer: what nobody brings first, then by name. `localeCompare` depends on the
-- locale of the server and is an argument.
pub comes_after : (String → String → Bool) → EventItem → EventItem → Bool
comes_after locale_after a b =
    if is_claimed a.status
    then (if is_claimed b.status then locale_after a.name b.name else true)
    else (if is_claimed b.status then false else locale_after a.name b.name)

abbrev pub or_else : {A : Type 0} → Option A → A → A
or_else none a = a
or_else (some b) a = b

-- A field of a DTO that is absent leaves the column as it is.
abbrev pub or_keep : {A : Type 0} → Option A → Option A → Option A
or_keep none a = a
or_keep (some b) a = some b

abbrev pub edited : UpdateItemDto → EventItem → EventItem
edited dto i = record i {
  name = or_else dto.name i.name;
  quantity = or_else dto.quantity i.quantity;
  unit = or_keep dto.unit i.unit;
  note = or_keep dto.note i.note;
}

-- The `data` of `claimItem`.
abbrev pub claim : Bool → ℕ → EventItem → EventItem
claim unclaiming user_id i =
    if unclaiming
    then record i { status = ItemStatus.unclaimed; claimed_by_id = none }
    else record i { status = ItemStatus.claimed; claimed_by_id = some user_id }

abbrev pub neutralize_list : ShownList → ShownList
neutralize_list l = record l {
  items = map (λ (i : ShownItem). record i { is_claimed_by_me = false }) l.items;
}

module _ {p : Prisma} where
  pub check_access : ℕ → ℕ → Handler p Event
  unfolding check_participant
  check_access = check_participant Http.not_accepted_participant

  -- The list of an event without its items.
  pub get_or_create_list : ℕ → Handler p ℕ
  get_or_create_list event_id d =
      elim (p.find_first (λ l. l.event_id == event_id) d.event_item_list) [
        | some (id, l) ↦ ok id d
        | none ↦ create item_lists (record { event_id = event_id }) d
      ]

  -- `!item || item.list.eventId !== eventId`.
  pub item_of_event : ℕ → ℕ → Handler p EventItem
  item_of_event event_id item_id = do
    item ← find_or_throw items item_id (not_found Http.item_missing)
    list ← find_or_throw item_lists item.list_id record_not_found
    throw_if (not (list.event_id == event_id)) (not_found Http.item_missing)
    pure item

  module _ (locale_after : String → String → Bool) where
    pub format_list : ℕ → ℕ → ℕ → Db p → ShownList
    unfolding comes_after
    format_list list_id event_id user_id d = record {
      id = list_id;
      event_id = event_id;
      items =
          map
            (λ (e : ℕ × EventItem). record {
              id = e.0;
              item = e.1;
              is_claimed_by_me = is_id e.1.claimed_by_id user_id;
            })
            (sort_by (λ (a b : ℕ × EventItem). comes_after locale_after a.1 b.1)
              (p.find_many (λ i. i.list_id == list_id) d.event_item));
    }

    -- The end of every call: the list as the caller sees it.
    pub show_list : ℕ → ℕ → Handler p ShownList
    unfolding get_or_create_list format_list
    show_list user_id event_id = do
      list_id ← get_or_create_list event_id
      db ← get
      pure (format_list list_id event_id user_id db)

    pub get_list : ℕ → ℕ → Handler p ShownList
    unfolding check_access show_list
    get_list user_id event_id = do _ ← check_access user_id event_id; show_list user_id event_id

    pub add_item : ℕ → ℕ → CreateItemDto → Handler p ShownList
    unfolding check_access show_list
    add_item user_id event_id dto = do
      _ ← check_access user_id event_id
      list_id ← get_or_create_list event_id
      _ ← create items (record {
        list_id = list_id;
        name = dto.name;
        quantity = or_else dto.quantity 1;
        unit = dto.unit;
        note = dto.note;
        status = ItemStatus.unclaimed;
        claimed_by_id = none;
        added_by_id = user_id;
      })
      show_list user_id event_id

    pub update_item : ℕ → ℕ → ℕ → UpdateItemDto → Handler p ShownList
    unfolding check_access item_of_event show_list
    update_item user_id event_id item_id dto = do
      event ← check_access user_id event_id
      item ← item_of_event event_id item_id
      throw_if (not (event.organizer_id == user_id) && not (item.added_by_id == user_id))
          (forbidden Http.not_item_owner)
      throw_if
          (is_claimed item.status
            && not (is_id item.claimed_by_id user_id)
            && not (event.organizer_id == user_id))
          (forbidden Http.item_held_by_other)
      update items item_id (edited dto)
      show_list user_id event_id

    pub delete_item : ℕ → ℕ → ℕ → Handler p ShownList
    unfolding check_access item_of_event show_list
    delete_item user_id event_id item_id = do
      event ← check_access user_id event_id
      item ← item_of_event event_id item_id
      throw_if (not (event.organizer_id == user_id) && not (item.added_by_id == user_id))
          (forbidden Http.not_item_owner)
      delete items item_id
      show_list user_id event_id

    pub claim_item : ℕ → ℕ → ℕ → Handler p ShownList
    unfolding check_access item_of_event show_list
    claim_item user_id event_id item_id = do
      _ ← check_access user_id event_id
      item ← item_of_event event_id item_id
      throw_if (is_claimed item.status && not (is_id item.claimed_by_id user_id))
          (conflict Http.item_claimed_by_other)
      update items item_id
          (claim (is_claimed item.status && is_id item.claimed_by_id user_id) user_id)
      show_list user_id event_id
