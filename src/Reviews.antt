-- ===== src/Reviews.antt =====
-- backend/src/reviews/reviews.service.ts: what the visitors of an event think of it. The time is an
-- argument. The messages to the gateway and the columns of users and events that the answers show
-- are left out, but for the masked e-mail, which is a function on code points.
pub mod Access
pub mod Lists
mod Tests
use Prim.Native.String.{String}
use event_now.Prelude.{
  ℕ, zero, suc, ◌+◌, ◌-◌, ◌*◌, ◌/◌, min, Bool, true, false, not, ◌&&◌, Option, none, some, List, [],
  ◌∷◌, ◌++◌, ltb, leb, ◌==◌, is_some, if◌then◌else◌, length,
}
use event_now.Prelude.Outcome.{Outcome, ok, err, throw_if, or_throw, pure, get, ◌>>=◌, ◌>>◌}
use event_now.Prisma.{Prisma}
use event_now.Http.{HttpException, Message, bad_request, not_found, forbidden, record_not_found}
use event_now.Http
use event_now.Participants.{is_community, is_accepted, is_request_of}
use event_now.Database.{
  Db, Handler, Event, EventType, Review, Ticket, Order, TicketCategory, events, reviews,
  find_or_throw, create, update, delete,
}
use event_now.Database

pub record CreateReviewDto : Type 0 where
  pub rating : ℕ
  pub comment : Option String

pub record UpdateReviewDto : Type 0 where
  pub rating : Option ℕ
  pub comment : Option String

pub data SortBy : Type 0 where
  recent highest lowest : SortBy

-- `findAllByEvent`: one page of the reviews, and their number and average in tenths.
pub record ReviewPage : Type 0 where
  pub reviews : List (ℕ × Review)
  pub total : ℕ
  pub total_pages : ℕ
  pub average_rating : Option ℕ

abbrev pub is_review_of : ℕ → ℕ → Review → Bool
is_review_of event_id user_id r = r.event_id == event_id && r.user_id == user_id

abbrev pub is_of_event : ℕ → Review → Bool
is_of_event event_id r = r.event_id == event_id

-- `eventDate` is never null in the schema.
pub event_end : Event → ℕ
event_end e = elim e.end_date [ none ↦ e.event_date + 6 * 3600000 | some d ↦ d ]

pub is_event_past : Event → ℕ → Bool
unfolding event_end
is_event_past e now = leb (event_end e) now

abbrev pub new_review : ℕ → ℕ → CreateReviewDto → ℕ → Review
new_review event_id user_id dto now = record {
  event_id = event_id;
  user_id = user_id;
  rating = dto.rating;
  comment = dto.comment;
  created_at = now;
}

abbrev pub edited : UpdateReviewDto → Review → Review
edited dto r = record r {
  rating = elim dto.rating [ none ↦ r.rating | some n ↦ n ];
  comment = elim dto.comment [ none ↦ r.comment | some c ↦ some c ];
}

-- `orderBy`: the column, and whether it descends.
abbrev pub sort_key : SortBy → Review → ℕ
sort_key recent r = r.created_at
sort_key highest r = r.rating
sort_key lowest r = r.rating

abbrev pub is_descending : SortBy → Bool
is_descending recent = true
is_descending highest = true
is_descending lowest = false

-- `Math.ceil(total / limit)`.
abbrev pub pages : ℕ → ℕ → ℕ
pages total limit = (total + limit - 1) / limit

-- `avg ? Math.round(avg * 10) / 10 : null` in tenths, where `avg` is `sum / count`.
unfoldable pub average : ℕ → ℕ → Option ℕ
average sum count = if sum == 0 then none else some ((20 * sum + count) / (2 * count))

-- The parts of `email.split('@')` before and after the first `@`, the second up to the next one.
abbrev pub before_at : List ℕ → List ℕ
before_at [] = []
before_at (c ∷ s) = if c == b'@' then [] else c ∷ before_at s

abbrev pub after_at : List ℕ → Option (List ℕ)
after_at [] = none
after_at (c ∷ s) = if c == b'@' then some (before_at s) else after_at s

abbrev pub stars : ℕ → List ℕ
stars zero = []
stars (suc n) = b'*' ∷ stars n

-- `domain` is undefined without an `@`, and a name without letters makes `'*'.repeat(-1)` throw.
abbrev pub or_undefined : Option (List ℕ) → List ℕ
or_undefined none = b'u' ∷ b'n' ∷ b'd' ∷ b'e' ∷ b'f' ∷ b'i' ∷ b'n' ∷ b'e' ∷ b'd' ∷ []
or_undefined (some s) = s

abbrev masked_name : List ℕ → Option (List ℕ)
masked_name [] = none
masked_name (c ∷ name) = some (c ∷ stars (min (length name) 3))

abbrev joined : Option (List ℕ) → List ℕ → Option (List ℕ)
joined none domain = none
joined (some name) domain = some (name ++ (b'@' ∷ domain))

pub mask_email : List ℕ → Option (List ℕ)
mask_email email = joined (masked_name (before_at email)) (or_undefined (after_at email))

module _ {p : Prisma} where
  -- `order: { userId }, ticketCategory: { eventId }, validatedAt: { not: null }`.
  pub is_attendance : ℕ → ℕ → Db p → Ticket → Bool
  is_attendance event_id user_id d t = elim (p.find_unique t.order_id d.order) [
    | none ↦ false
    | some o ↦ elim (p.find_unique t.ticket_category_id d.ticket_category) [
      | none ↦ false
      | some c ↦ o.user_id == user_id && c.event_id == event_id && is_some t.validated_at
    ]
  ]

  pub has_attended : ℕ → ℕ → EventType → Db p → Bool
  unfolding is_attendance
  has_attended event_id user_id type d =
      if is_community type
      then is_some (
          p.find_first (λ r. is_request_of event_id user_id r && is_accepted r.status)
            d.participation_request)
      else is_some (p.find_first (is_attendance event_id user_id d) d.ticket)

  pub create_review : ℕ → ℕ → CreateReviewDto → ℕ → Handler p ℕ
  unfolding is_event_past has_attended
  create_review event_id user_id dto now = do
    event ← find_or_throw events event_id (not_found Http.event_missing)
    throw_if (not (is_event_past event now)) (bad_request Http.event_not_over)
    db ← get
    throw_if (not (has_attended event_id user_id event.type db)) (forbidden Http.not_attended)
    throw_if (is_some (p.find_first (is_review_of event_id user_id) db.social.review))
        (bad_request Http.review_exists)
    create reviews (new_review event_id user_id dto now)

  -- For a page and a limit of 1 or more.
  pub find_all_by_event : ℕ → ℕ → ℕ → SortBy → Handler p ReviewPage
  unfolding average
  find_all_by_event event_id page limit sort = do
    db ← get
    pure (record {
      reviews =
          p.find_page (is_of_event event_id) (sort_key sort) (is_descending sort)
            ((page - 1) * limit) limit db.social.review;
      total = p.sum (λ r. if is_of_event event_id r then 1 else 0) db.social.review;
      total_pages =
          pages (p.sum (λ r. if is_of_event event_id r then 1 else 0) db.social.review) limit;
      average_rating =
          average (p.sum (λ r. if is_of_event event_id r then r.rating else 0) db.social.review)
            (p.sum (λ r. if is_of_event event_id r then 1 else 0) db.social.review);
    })

  pub find_all_by_user : ℕ → Handler p (List (ℕ × Review))
  find_all_by_user user_id = do
    db ← get
    pure (p.find_many (λ r. r.user_id == user_id) db.social.review)

  -- The reason why the user may not review the event, or none.
  pub can_user_review : ℕ → ℕ → ℕ → Db p → Option Message
  unfolding is_event_past has_attended
  can_user_review event_id user_id now d = elim (p.find_unique event_id d.event) [
    | none ↦ some Http.event_missing
    | some event ↦
        if not (is_event_past event now)
        then some Http.event_not_over
        else if not (has_attended event_id user_id event.type d)
        then some Http.not_attended
        else if is_some (p.find_first (is_review_of event_id user_id) d.social.review)
        then some Http.review_exists
        else none
  ]

  -- The review, which is the user's; `refusal` is what anyone else is told.
  pub own_review : Message → ℕ → ℕ → Handler p Review
  own_review refusal review_id user_id = do
    review ← find_or_throw reviews review_id (not_found Http.review_missing)
    throw_if (not (review.user_id == user_id)) (forbidden refusal)
    pure review

  pub update_review : ℕ → ℕ → UpdateReviewDto → Handler p (Unit {0})
  unfolding own_review
  update_review review_id user_id dto = do
    _ ← own_review Http.review_edit_forbidden review_id user_id
    update reviews review_id (edited dto)

  pub delete_review : ℕ → ℕ → Handler p (Unit {0})
  unfolding own_review
  delete_review review_id user_id = do
    _ ← own_review Http.review_delete_forbidden review_id user_id
    delete reviews review_id
