-- ===== src/Kafka/Trace.antt =====
-- internal/kafka/producer.go and internal/kafka/consumer.go: the trace context in the headers of a
-- message. The propagator of OpenTelemetry is a parameter. A header's bytes are its text.
pub mod Headers
use playback_service.Prelude.{String, ◌≡◌, Option, none, some, List, [], ◌∷◌, ◌==◌, if◌then◌else◌}

-- kafka.Header
pub record Header : Type 0 where
  pub key : String
  pub value : String

-- propagation.MapCarrier: a Go map, by its entries.
abbrev pub MapCarrier : Type 0
MapCarrier = List (String × String)

abbrev pub get_key : MapCarrier → String → Option String
get_key [] j = none
get_key ((k, v) ∷ rest) j = if k == j then some v else get_key rest j

-- The keys of a map are distinct.
abbrev pub IsMap : MapCarrier → Type 0
IsMap [] = Unit
IsMap ((k, v) ∷ rest) = (get_key rest k ≡ none) × IsMap rest

-- carrier.Set
abbrev pub set_key : String → String → MapCarrier → MapCarrier
set_key k v [] = (k, v) ∷ []
set_key k v ((j, u) ∷ rest) = if j == k then (j, v) ∷ rest else (j, u) ∷ set_key k v rest

pub record Propagator : Type 1 where
  pub Context : Type 0
  pub inject : Context → MapCarrier → MapCarrier
  pub extract : Context → MapCarrier → Context

-- The loop of `injectTraceHeaders`.
abbrev pub headers_of : List (String × String) → List Header
headers_of [] = []
headers_of ((k, v) ∷ rest) = record { key = k; value = v } ∷ headers_of rest

-- The loop of `extractTraceContext`.
abbrev pub carrier_of : List Header → MapCarrier → MapCarrier
carrier_of [] c = c
carrier_of (h ∷ rest) c = carrier_of rest (set_key h.key h.value c)

module _ (p : Propagator) where
  -- `range` is the order in which Go goes over a map.
  unfoldable pub inject_trace_headers :
      (MapCarrier → List (String × String)) → p.Context → List Header
  inject_trace_headers range ctx = headers_of (range (p.inject ctx []))

  unfoldable pub extract_trace_context : p.Context → List Header → p.Context
  extract_trace_context ctx headers = p.extract ctx (carrier_of headers [])
