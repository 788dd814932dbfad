-- ===== src/Store/Queries.antt =====
-- The reads of internal/store/deliveries.go and messages.go.
-- A read is taken to succeed; `ORDER BY` and `LIMIT` are written out.
use sonata.Prelude.{
  ℕ, suc, Bool, true, ◌&&◌, ◌||◌, Option, none, some, List, [], ◌∷◌, Text, same, text_ltb, Result,
  ok, err, ◌==◌, ltb, leb, if◌then◌else◌, keep, count, find?, take,
}
use sonata.Prelude.Int.{ℤ, pos, negsuc}
use sonata.Prelude.Sorting.{sort}
use sonata.Store.Types.{
  pending, claimed, failed, State, Message, Delivery, Db, StoreError, not_found,
}
use sonata.Store.Timestamp.{stamp_leb}
use sonata.Store.Deliveries.{holds_of, in_state, of_action, is_active, find_delivery}
use sonata.Store.Messages.{has_message_id}

-- A claimable delivery with its message.
pub record Work : Type 0 where
  pub delivery : Delivery
  pub message : Message

-- The WHERE clause of NextEligible.
abbrev pub is_eligible : Text → ℕ → Delivery → Bool
is_eligible action now d =
    of_action action d
    && (in_state pending d
        || (in_state failed d && holds_of (λ gate. stamp_leb gate now) d.not_before))

-- JOIN messages m ON m.id = d.message_id; ids of messages are unique.
unfoldable pub message_of : List Message → Delivery → Option Message
message_of messages d = elim d.message_id [
  | none ↦ none
  | some id ↦ find? (has_message_id id) messages
]

unfoldable pub earlier : Work → Option Work → Option Work
earlier w none = some w
earlier w (some v) = if leb w.delivery.id v.delivery.id then some w else some v

unfoldable pub joined : Bool → Delivery → Option Message → Option Work → Option Work
unfolding earlier
joined true d (some m) rest = earlier (record { delivery = d; message = m }) rest
joined _ d o rest = rest

-- `ORDER BY d.id LIMIT 1` over the joined rows that pass the test.
unfoldable pub first_work : (Delivery → Bool) → List Message → List Delivery → Option Work
unfolding joined message_of
first_work p messages [] = none
first_work p messages (d ∷ ds) = joined (p d) d (message_of messages d) (first_work p messages ds)

-- NextEligible; `none` is ErrNotFound.
unfoldable pub next_eligible : Text → ℕ → Db → Option Work
unfolding first_work
next_eligible action now db = first_work (is_eligible action now) db.messages db.deliveries

abbrev pub by_id : Delivery → Delivery → Bool
by_id d e = ltb d.id e.id

-- ClaimedDeliveries.
unfoldable pub claimed_deliveries : Db → List Delivery
unfolding sort
claimed_deliveries db = sort by_id (keep (in_state claimed) db.deliveries)

-- CountActiveDeliveries.
unfoldable pub count_active : Db → ℕ
count_active db = count is_active db.deliveries

-- MIN over texts; NULL does not count.
min_gate : Option ℕ → Option ℕ → Option ℕ
min_gate none o = o
min_gate (some a) none = some a
min_gate (some a) (some b) = if stamp_leb a b then some a else some b

unfoldable pub first_gate : List Delivery → Option ℕ
unfolding min_gate
first_gate [] = none
first_gate (d ∷ ds) =
    let rest = first_gate ds in if in_state failed d then min_gate d.not_before rest else rest

-- NextRetryAt; `none` is ErrNotFound.
unfoldable pub next_retry_at : Db → Option ℕ
unfolding first_gate
next_retry_at db = first_gate db.deliveries

or_not_found {ℓ} : {A : Type ℓ} → Option A → Result StoreError A
or_not_found none = err not_found
or_not_found (some a) = ok a

unfoldable pub get_delivery : ℕ → Db → Result StoreError Delivery
unfolding or_not_found find_delivery
get_delivery id db = or_not_found (find_delivery id db)

unfoldable pub get_message : ℕ → Db → Result StoreError Message
unfolding or_not_found
get_message id db = or_not_found (find? (has_message_id id) db.messages)

abbrev pub default_list_limit : ℕ
default_list_limit = 50

abbrev pub max_list_limit : ℕ
max_list_limit = 1000

unfoldable pub clamp_limit : ℤ → ℕ
clamp_limit (negsuc n) = default_list_limit
clamp_limit (pos n) =
    if n == 0 then default_list_limit else if ltb max_list_limit n then max_list_limit else n

-- An empty text or an absent value means "no filter".
abbrev pub unless_empty : Text → Bool → Bool
unless_empty [] b = true
unless_empty (c ∷ t) b = b

abbrev pub unless_none {ℓ} : {A : Type ℓ} → Option A → (A → Bool) → Bool
unless_none none p = true
unless_none (some a) p = p a

pub record DeliveryListOptions : Type 0 where
  pub action : Text
  pub state : Option State
  pub message_id : Option ℕ
  pub limit : ℤ
  pub before_id : Option ℕ

abbrev pub delivery_matches : DeliveryListOptions → Delivery → Bool
delivery_matches o d =
    unless_empty o.action (same d.action_name o.action)
    && unless_none o.state (λ s. in_state s d)
    && unless_none o.message_id (λ id. holds_of (λ m. m == id) d.message_id)

abbrev pub delivery_desc : Delivery → Delivery → Bool
delivery_desc d e = ltb e.id d.id

-- One page: newest first, of the rows below the cursor.
unfoldable pub page {ℓ} : {A : Type ℓ} → (A → ℕ) → ℕ → Option ℕ → List A → List A
unfolding sort
page id limit before rows =
    take limit
      (sort (λ a b. ltb (id b) (id a)) (keep (λ a. unless_none before (λ c. ltb (id a) c)) rows))

-- ListDeliveries.
unfoldable pub list_deliveries : DeliveryListOptions → Db → List Delivery
unfolding page clamp_limit
list_deliveries o db =
    page (λ d. d.id) (clamp_limit o.limit) o.before_id (keep (delivery_matches o) db.deliveries)

pub record ListOptions : Type 0 where
  pub queue : Text
  pub trace_id : Option ℕ
  pub limit : ℤ
  pub before_id : Option ℕ

abbrev pub message_matches : ListOptions → Message → Bool
message_matches o m =
    unless_empty o.queue (same m.queue o.queue) && unless_none o.trace_id (λ t. m.trace_id == t)

-- ListMessages.
unfoldable pub list_messages : ListOptions → Db → List Message
unfolding page clamp_limit
list_messages o db =
    page (λ m. m.id) (clamp_limit o.limit) o.before_id (keep (message_matches o) db.messages)

pub record QueueInfo : Type 0 where
  pub name : Text
  pub messages : ℕ

tally : Text → List QueueInfo → List QueueInfo
tally q [] = record { name = q; messages = 1 } ∷ []
tally q (i ∷ rest) =
    let later = tally q rest in
    if same i.name q then record i { messages = suc i.messages } ∷ rest else i ∷ later

group : List Message → List QueueInfo
unfolding tally
group [] = []
group (m ∷ ms) = tally m.queue (group ms)

abbrev pub queue_by_name : QueueInfo → QueueInfo → Bool
queue_by_name a b = text_ltb a.name b.name

-- ListQueues: `GROUP BY queue ORDER BY queue`.
unfoldable pub list_queues : Db → List QueueInfo
unfolding group sort
list_queues db = sort queue_by_name (group db.messages)
