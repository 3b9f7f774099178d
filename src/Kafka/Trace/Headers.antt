-- ===== src/Kafka/Trace/Headers.antt =====
-- The headers of a message carry a map from the producer to the consumer.
use mathlib.Core.List.{Permᴰ}
use mathlib.Core.Path.{subst, subst₂}
use playback_service.Prelude.{
  String, ◌≡◌, refl, sym, ap, ◌∙◌, false, Bool-cases, eq_iff, Option, none, some, inl, inr, List,
  [], ◌∷◌, ◌==◌, if◌then◌else◌, arith,
}
use playback_service.Kafka.Trace.{
  MapCarrier, get_key, IsMap, set_key, Propagator, headers_of, carrier_of, inject_trace_headers,
  extract_trace_context,
}

-- What the source relies on: Go goes over each entry of a map once, in some order.
pub record IsRange (range : MapCarrier → List (String × String)) : Type 0 where
  pub visits : (c : MapCarrier) → Permᴰ c (range c)

-- What the source relies on of a propagator: it changes a carrier by `Set`, so it leaves a map, and it
-- reads a carrier by `Get`.
pub record IsPropagator (p : Propagator) : Type 0 where
  pub injects : (ctx : p.Context) → IsMap (p.inject ctx [])
  pub reads :
      (ctx : p.Context) (c d : MapCarrier)
      → ((k : String) → get_key c k ≡ get_key d k)
      → p.extract ctx c ≡ p.extract ctx d

-- A value that is set is found, and the others stay.
get_key-set_key :
    (k v j : String) (c : MapCarrier)
    → get_key (set_key k v c) j ≡ (if k == j then some v else get_key c j)
get_key-set_key k v j [] = refl
get_key-set_key k v j ((i, u) ∷ rest) = elim (Bool-cases (i == k)) [
  | inl same ↦ ground (arith, eq_iff i k, eq_iff k j, eq_iff i j)
  | inr other ↦ elim (Bool-cases (i == j)) [
    | inl here ↦ ground (arith, eq_iff i k, eq_iff k j, eq_iff i j)
    | inr there ↦ rw (other, there) (get_key-set_key k v j rest)
  ]
]

abbrev or_else : Option String → Option String → Option String
or_else none b = b
or_else (some v) b = some v

-- A list with distinct keys, set entry by entry, gives its values.
get_key-carrier_of :
    (l : List (String × String)) (c : MapCarrier) (j : String)
    → IsMap l
    → get_key (carrier_of (headers_of l) c) j ≡ or_else (get_key l j) (get_key c j)
get_key-carrier_of [] c j distinct = refl
get_key-carrier_of ((k, v) ∷ rest) c j (fresh, distinct) =
    get_key-carrier_of rest (set_key k v c) j distinct
    ∙ ap (or_else (get_key rest j)) (get_key-set_key k v j c)
    ∙ elim (Bool-cases (k == j)) [
      | inl same ↦
          let absent : get_key rest j ≡ none =
            ap (get_key rest) (sym ((eq_iff k j).0 same)) ∙ fresh in
          rw (same, absent) refl
      | inr other ↦ rw other refl
    ]

get_key-empty : (o : Option String) → or_else o none ≡ o
get_key-empty none = refl
get_key-empty (some v) = refl

-- Two lists of entries that give the same map.
record SameMap (c d : List (String × String)) : Type 0 where
  distinct : IsMap d
  found : (j : String) → get_key c j ≡ get_key d j

swap-SameMap :
    (a b : String × String) (l : List (String × String))
    → IsMap (a ∷ b ∷ l)
    → SameMap (a ∷ b ∷ l) (b ∷ a ∷ l)
swap-SameMap (k, v) (i, u) l (first, (second, distinct)) = elim (Bool-cases (i == k)) [
  | inl same ↦ cc (rw same at first)
  | inr other ↦
      let fresh : get_key l k ≡ none = rw other at first in
      let apart : k == i ≡ false = ground (arith, eq_iff k i, eq_iff i k) in
      record {
        distinct = (rw apart second, (fresh, distinct));
        found = λ j. elim (Bool-cases (k == j)) [
          | inl here ↦
              let there : i == j ≡ false = ground (arith, eq_iff k j, eq_iff i k, eq_iff i j) in
              rw (here, there) refl
          | inr there ↦ rw there refl
        ];
      }
]

-- The order of a map's entries does not matter.
Permᴰ-SameMap : {c d : List (String × String)} → Permᴰ c d → IsMap c → SameMap c d
Permᴰ-SameMap Permᴰ.nil distinct = record { distinct = distinct; found = λ j. refl }
Permᴰ-SameMap (Permᴰ.cons {a = a} {l₁ = l} {l₂ = m} same rest) distinct =
    let r = Permᴰ-SameMap rest distinct.1 in
    subst (λ e. SameMap (a ∷ l) (e ∷ m)) same
      (record {
        distinct = (sym (r.found a.0) ∙ distinct.0, r.distinct);
        found = λ j. ap (λ o. if a.0 == j then some a.1 else o) (r.found j);
      })
Permᴰ-SameMap (Permᴰ.swap {a = a} {b = b} {l = l} e f) distinct =
    subst₂ (λ p q. SameMap (a ∷ b ∷ l) (p ∷ q ∷ l)) f e (swap-SameMap a b l distinct)
Permᴰ-SameMap (Permᴰ.trans first second) distinct =
    let p = Permᴰ-SameMap first distinct in
    let q = Permᴰ-SameMap second p.distinct in
    record { distinct = q.distinct; found = λ j. p.found j ∙ q.found j }

-- The trace context goes with the message. What the consumer takes from the headers that the producer
-- has written is what the propagator extracts from the very map that it injected, whatever order Go
-- went over the map in. This relies on how the propagator uses a map.
pub extract-inject_trace :
    (p : Propagator) (lawful : IsPropagator p) (range : MapCarrier → List (String × String))
    (ranging : IsRange range) (sender receiver : p.Context)
    → extract_trace_context p receiver (inject_trace_headers p range sender)
      ≡ p.extract receiver (p.inject sender [])
unfolding extract_trace_context inject_trace_headers
extract-inject_trace p lawful range ranging sender receiver =
    let sent = p.inject sender [] in
    let ordered = Permᴰ-SameMap (ranging.visits sent) (lawful.injects sender) in
    lawful.reads receiver (carrier_of (headers_of (range sent)) []) sent λ k.
      get_key-carrier_of (range sent) [] k ordered.distinct
      ∙ get_key-empty (get_key (range sent) k)
      ∙ sym (ordered.found k)
