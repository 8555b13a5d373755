-- ===== src/Outbox/Event.antt =====
-- internal/model/outbox_event.go. A UUID is a number below 2 ^ 128, uuid.Nil is 0, and a payload
-- is its bytes. Ids and versions are not negative, so `<= 0` is `== 0`.
use webitel_emails.Prelude.{
  ℕ, String, ◌||◌, ◌==◌, nat_eq, string_eq, ltb, leb, if◌then◌else◌, Option, none, some, List,
  length, Bytes,
}
use webitel_emails.Model.Runtime.{Time}

pub data OutboxEventState : Type 0 where
  pending processing published failed : OutboxEventState

pub record OutboxEvent : Type 0 where
  pub event_id : ℕ
  pub domain_id : ℕ
  pub event_type : String
  pub schema_version : ℕ
  pub dedup_key : Bytes
  pub exchange : String
  pub routing_key : String
  pub payload : List ℕ
  pub state : OutboxEventState
  pub attempts : ℕ
  pub next_attempt_at : Time
  pub locked_by : String
  pub locked_until : Option Time
  pub published_at : Option Time
  pub last_error : String
  pub created_at : Time
  pub updated_at : Time

-- (*OutboxEvent).Validate, of a pointer that is not nil
unfoldable pub validate : OutboxEvent → Option String
validate e =
    if e.event_id == 0 || leb e.domain_id 0 || ltb e.schema_version 1
    then some "outbox event needs an event id, a domain and a schema version"
    else if e.event_type == "" || e.exchange == "" || e.routing_key == ""
    then some "outbox event needs a type, an exchange and a routing key"
    else if length e.payload == 0
    then some "outbox event needs a payload"
    else none
