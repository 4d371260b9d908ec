-- ===== src/Event/Defs.antt =====
-- internal/event/events.go and internal/event/bus.go, and the readers of an event's data of
-- internal/detect/rules.go.
use honeypot_go.Base.{
  ℕ, ◌+◌, Bool, false, Option, some, List, [], ◌∷◌, ◌++◌, length, if◌then◌else◌, ltb, Bytes, ◌==◌,
  drop,
}
use honeypot_go.Base.Dict.{get}

-- `Type` and its constants
pub data Kind : Type 0 where
  connection_opened connection_closed auth_attempt session_opened session_closed : Kind
  command_executed download_attempt connect_attempt file_written alert : Kind

-- The values that the program stores in `Event.Data`.
pub data Value : Type 0 where
  str : Bytes → Value
  bool : Bool → Value
  num : ℕ → Value

pub record Event : Type 0 where
  pub kind : Kind
  pub time : ℕ
  pub values : List (Bytes × Value)

-- `New`: `now` is `time.Now()`.
abbrev pub new : ℕ → Kind → List (Bytes × Value) → Event
new now kind values = record { kind = kind; time = now; values = values }

abbrev pub as_str : Option Value → Bytes
as_str (some (str s)) = s
as_str _ = []

abbrev pub as_bool : Option Value → Bool
as_bool (some (bool b)) = b
as_bool _ = false

-- `eventStr` and `eventBool` of internal/detect/rules.go: the zero value for a missing key or a
-- value of another type.
unfoldable pub event_str : Event → Bytes → Bytes
unfolding get
event_str ev key = as_str (get key ev.values)

unfoldable pub event_bool : Event → Bytes → Bool
unfolding get
event_bool ev key = as_bool (get key ev.values)

-- The capacity of a subscriber's channel.
abbrev pub queue_cap : ℕ
queue_cap = 2048

-- `Bus`: the queues of the subscribers, each under the identity of its channel, and the number of
-- events that found a full queue.
pub record Bus : Type 0 where
  pub subscribers : List (ℕ × List Event)
  pub dropped : ℕ  -- uint64

unfoldable pub subscribe : ℕ → Bus → Bus
subscribe id b = record b { subscribers = b.subscribers ++ (id, []) ∷ [] }

abbrev pub keep_others : ℕ → List (ℕ × List Event) → List (ℕ × List Event)
keep_others id [] = []
keep_others id ((j, q) ∷ qs) =
    let rest = keep_others id qs in if j == id then rest else (j, q) ∷ rest

unfoldable pub unsubscribe : ℕ → Bus → Bus
unsubscribe id b = record b { subscribers = keep_others id b.subscribers }

-- One `select` of `Publish`: sent where there is room, dropped and counted where there is none.
unfoldable pub deliver : Event → List (ℕ × List Event) → ℕ → List (ℕ × List Event) × ℕ
deliver ev [] dropped = ([], dropped)
deliver ev ((id, q) ∷ qs) dropped =
    let room = ltb (length q) queue_cap in
    let (rest, d) = deliver ev qs (if room then dropped else dropped + 1) in
    ((id, if room then q ++ ev ∷ [] else q) ∷ rest, d)

unfoldable pub publish : Event → Bus → Bus
unfolding deliver
publish ev b =
    let (qs, d) = deliver ev b.subscribers b.dropped in record { subscribers = qs; dropped = d }

-- The receive of a subscriber: the oldest event of its queue.
abbrev pub receive_from : ℕ → List (ℕ × List Event) → List (ℕ × List Event)
receive_from id [] = []
receive_from id ((j, q) ∷ qs) =
    let rest = receive_from id qs in if j == id then (j, drop 1 q) ∷ qs else (j, q) ∷ rest

unfoldable pub receive : ℕ → Bus → Bus
receive id b = record b { subscribers = receive_from id b.subscribers }
