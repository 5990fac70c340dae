-- ===== src/Tests.antt =====
-- A small database in memory, to which the tests of the other modules apply the theorems on the
-- services (backend/src).
use event_now.Prelude.{
  ℕ, ◌+◌, ltb, zero, suc, ◌≡◌, all, refl, none, some, List, [], ◌∷◌, Bool, true, false, ◌==◌,
  if◌then◌else◌,
}
use event_now.Prelude.Int.{pos}
use event_now.Prisma.Rows.{in_memory}
use event_now.Database.{
  Db, User, Event, TicketCategory, Booking, BookingStatus, Order, OrderStatus, Ticket, PromoCode,
  EventItem, ItemStatus, EventType, EventStatus, Role, percentage, Poll, PollOption, PollStatus,
}
use event_now.QrCode.{Crypto, is_hex}
use event_now.Payment.{Stripe, Refund, succeeded}
use event_now.Redis.{Redis}
use event_now.Bookings.{CreateBookingDto}

abbrev pub concert : Event
concert = record {
  title = "Concert";
  organizer_id = 9;
  event_date = 100000000;
  end_date = none;
  cancelled_at = none;
  cancel_reason = none;
  type = EventType.professional;
  status = EventStatus.active;
}

abbrev pub standing : TicketCategory
standing = record {
  event_id = 0;
  name = "Fosse";
  price = 2500;
  initial_stock = 10;
  current_stock = 7;
}

-- User 7 holds three places until time 5000.
abbrev pub hold : Booking
hold = record {
  user_id = 7;
  ticket_category_id = 0;
  quantity = 3;
  status = BookingStatus.pending;
  expires_at = 5000;
  order_id = none;
}

abbrev pub dropped : Booking
dropped = record hold { status = BookingStatus.cancelled }

abbrev pub spring : PromoCode
spring = record {
  code = "SPRING";
  event_id = 0;
  created_by_id = 9;
  discount_type = percentage;
  discount_value = pos 2000;
  max_uses = some 5;
  current_uses = 4;
  expires_at = none;
  is_active = true;
}

-- Booking 0 is dropped, booking 1 is pending.
abbrev pub sample : Db in_memory
sample = record {
  user = [];
  event = some concert ∷ [];
  ticket_category = some standing ∷ [];
  booking = some hold ∷ some dropped ∷ [];
  order = [];
  ticket = [];
  promo_code = some spring ∷ [];
  notification = [];
  event_staff = [];
  participation_request = [];
  event_item_list = [];
  event_item = [];
  social = record {
    follow = [];
    staff_invitation = [];
    review = [];
    participant_review = [];
    report = [];
  };
  ballots = record { poll = []; poll_option = []; poll_vote = [] };
  chat = record { conversation = []; conversation_member = []; message = [] };
}

-- Order 0 is paid and has two tickets, one of them used; order 1 was refunded.
abbrev pub bought : Order
bought = record {
  user_id = 7;
  total_amount = pos 5000;
  status = OrderStatus.paid;
  payment_intent_id = some "pi_1";
}

abbrev pub given_back_order : Order
given_back_order = record bought { status = OrderStatus.refunded }

abbrev pub entry : Ticket
entry = record {
  order_id = 0;
  ticket_category_id = 0;
  qr_code = b'A' ∷ b'-' ∷ b'1' ∷ [];
  validated_at = none;
}

abbrev pub used_entry : Ticket
used_entry = record entry { qr_code = b'A' ∷ b'-' ∷ b'2' ∷ []; validated_at = some 5 }

abbrev pub in_order : Booking
in_order = record hold { quantity = 2; status = BookingStatus.confirmed; order_id = some 0 }

abbrev pub replicate : {A : Type 0} → ℕ → A → List A
replicate zero a = []
replicate (suc n) a = a ∷ replicate n a

abbrev pub reader : User
reader = record {
  username = none;
  email = "a@b";
  role = Role.user;
  is_banned = false;
  banned_at = none;
}

-- After a sale: user 8 is of the staff of the concert.
abbrev pub sold : Db in_memory
sold = record sample {
  user = replicate 9 (some reader);
  booking = some in_order ∷ [];
  order = some given_back_order ∷ some bought ∷ [];
  ticket = some used_entry ∷ some entry ∷ [];
  event_staff = some (record { event_id = 0; user_id = 8 }) ∷ [];
}

pub replicate-IsHex : (n : ℕ) → all is_hex (replicate n b'a') ≡ true
replicate-IsHex zero = refl
replicate-IsHex (suc n) = replicate-IsHex n

-- A digest that depends on the index.
abbrev pub crypto : Crypto
crypto = record { digest = λ o i t. replicate i b'a'; digest-hex = λ o i t. replicate-IsHex i }

-- A Stripe account that has taken 50 euros and keeps the list of refunds.
abbrev pub account : Stripe
account = record {
  State = List Refund;
  create_intent = λ n x. some ("pi_2", x);
  retrieve = λ id x. some (record { amount = 5000; status = succeeded });
  list_refunds = λ id x. some x;
  create_refund = λ id amount x. some (
    record { amount = 5000; status = succeeded },
    (record { amount = 5000; status = succeeded }) ∷ x,
  );
}

abbrev pub two_places : CreateBookingDto
two_places = record { ticket_category_id = 0; quantity = 2 }

-- A community event with an item that user 7 brings.
abbrev pub picnic : Event
picnic = record concert { title = "Pique-nique"; type = EventType.community }

abbrev pub bread : EventItem
bread = record {
  list_id = 0;
  name = "Pain";
  quantity = 2;
  unit = none;
  note = none;
  status = ItemStatus.claimed;
  claimed_by_id = some 7;
  added_by_id = 9;
}

abbrev pub shared : Db in_memory
shared = record sample {
  event = some picnic ∷ [];
  event_item_list = some (record { event_id = 0 }) ∷ [];
  event_item = some bread ∷ [];
}

-- Locks as a function of the key and the time.
abbrev pub locks : Redis
locks = record {
  Keys = ℕ → ℕ → Bool;
  exists = λ k t s. s k t;
  set = λ k ttl now s. λ j t. if k == j then ltb t (now + ttl) else s j t;
  del = λ k s. λ j t. if k == j then false else s j t;
  exists-set = λ j k ttl now t s h. refl;
  exists-del = λ j k t s. refl;
}

-- A poll of the picnic with two options, on which user 9, the organizer, has voted for the first.
abbrev pub which_day : Poll
which_day = record {
  event_id = 0;
  created_by_id = 9;
  question = "Quel jour ?";
  status = PollStatus.is_open;
  multiple_choice = true;
  closes_at = none;
  created_at = 0;
}

abbrev pub saturday : PollOption
saturday = record { poll_id = 0; text = "Samedi"; order = 0 }

abbrev pub sunday : PollOption
sunday = record { poll_id = 0; text = "Dimanche"; order = 1 }

abbrev pub polled : Db in_memory
polled = record shared {
  ballots = record {
    poll = some which_day ∷ [];
    poll_option = some sunday ∷ some saturday ∷ [];
    poll_vote = some (record { poll_id = 0; option_id = 0; user_id = 9 }) ∷ [];
  };
}
