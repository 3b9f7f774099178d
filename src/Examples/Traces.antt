-- ===== src/Examples/Traces.antt =====
-- A propagator that writes one key, and a map that Go goes over in the order of its entries.
use mathlib.Core.List.{Permᴰ}
use mathlib.Core.Option.{get_or}
use playback_service.Prelude.{String, ◌≡◌, refl, ap, List, [], ◌∷◌}
use playback_service.Kafka.Trace.{
  MapCarrier, get_key, set_key, Propagator, inject_trace_headers, extract_trace_context,
}
use playback_service.Kafka.Trace.Headers.{IsRange, IsPropagator, extract-inject_trace}

abbrev trace_parent : Propagator
trace_parent = record {
  Context = String;
  inject = λ ctx c. set_key "traceparent" ctx c;
  extract = λ ctx c. get_or (get_key c "traceparent") ctx;
}

trace_parent-IsPropagator : IsPropagator trace_parent
trace_parent-IsPropagator = record {
  injects = λ ctx. (refl, tt);
  reads = λ ctx c d same. ap (λ o. get_or o ctx) (same "traceparent");
}

same_entries : {A : Type 0} (l : List A) → Permᴰ l l
same_entries [] = Permᴰ.nil
same_entries (a ∷ l) = Permᴰ.cons refl (same_entries l)

abbrev in_order : MapCarrier → List (String × String)
in_order c = c

in_order-IsRange : IsRange in_order
in_order-IsRange = record { visits = λ c. same_entries c }

extract-inject_trace_example :
    extract_trace_context trace_parent ""
      (inject_trace_headers trace_parent in_order "00-4bf92f35-01")
    ≡ trace_parent.extract "" (trace_parent.inject "00-4bf92f35-01" [])
extract-inject_trace_example =
    extract-inject_trace trace_parent trace_parent-IsPropagator in_order in_order-IsRange
      "00-4bf92f35-01" ""
