-- ===== src/Json2Click/Event.antt =====
-- What the JSON reader (rapidjson, a vendored library) tells its handler, and the documents that
-- it tells of in the documented order: a depth-first walk, a key before its value.
use flexetl.Prelude.{ℕ, Bool, List, [], ◌∷◌, ◌++◌}
use flexetl.Prelude.Int.{ℤ}
use flexetl.Prelude.Words.{Bytes}
use flexetl.ClickTbl.Value
use flexetl.ClickTbl.Value.{Value}

-- A scalar by the callback that it is reported through.
pub data Scalar : Type 0 where
  null : Scalar
  bool : Bool → Scalar
  int int64 : ℤ → Scalar
  uint uint64 double : ℕ → Scalar
  string : Bytes → Scalar

pub data Event : Type 0 where
  scalar : Scalar → Event
  start_object end_object start_array end_array : Event
  key : Bytes → Event
  raw_number : Bytes → Event

-- The `Value` that each scalar callback passes to `append`.
unfoldable pub value_of : Scalar → Value
value_of null = Value.unknown
value_of (bool b) = Value.bool b
value_of (int n) = Value.of_int n
value_of (uint n) = Value.uint n
value_of (int64 n) = Value.of_int n
value_of (uint64 n) = Value.uint n
value_of (double n) = Value.double n
value_of (string s) = Value.str s

mutual
  pub data Json : Type 0 where
    scalar : Scalar → Json
    list : Items → Json
    object : Members → Json

  pub data Items : Type 0 where
    nil : Items
    cons : Json → Items → Items

  pub data Members : Type 0 where
    end : Members
    member : Bytes → Json → Members → Members

-- The order of the callbacks.
unfoldable mutual
  pub events : Json → List Event
  events (scalar s) = Event.scalar s ∷ []
  events (list xs) = start_array ∷ (item_events xs ++ end_array ∷ [])
  events (object ms) = start_object ∷ (member_events ms ++ end_object ∷ [])

  pub item_events : Items → List Event
  item_events nil = []
  item_events (cons x xs) = events x ++ item_events xs

  pub member_events : Members → List Event
  member_events end = []
  member_events (member k v ms) = key k ∷ (events v ++ member_events ms)
