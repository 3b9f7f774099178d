-- ===== src/External/Memory.antt =====
-- Services in memory that meet the laws: each may be down, and the instants are written in unary.
use Prim.Native.String.{count}
use text.Mathlib.TextLemmas.{length-append}
use playback_service.Prelude.{
  ℕ, zero, suc, ◌+◌, String, ◌<>◌, ◌≡◌, ◌⊎◌, inr, Bool-cases, eq_refl, refl, ap, Bool, true, false,
  Option, none, some, List, [], ◌∷◌, ◌++◌, inl, ◌==◌, eq_iff, arith, if◌then◌else◌,
}
use playback_service.Apperror.{Fault, sentinel, foreign, redis_nil, no_rows, is}
use playback_service.Json.{Json}
use playback_service.Session.Model.{Time, PlaybackSession}
use playback_service.External.{External, Outcome, ok, err}
use playback_service.External.Laws.{IsReadable, IsRedis, IsPostgres, IsKafka}
use mathlib.Core.Option

unfoldable pub ticks : ℕ → String
ticks zero = ""
ticks (suc n) = "i" <> ticks n

count-ticks : (n : ℕ) → count (ticks n) ≡ n
unfolding ticks
count-ticks zero = refl
count-ticks (suc n) = omega (arith, length-append "i" (ticks n), count-ticks n)

pub record MemoryCache : Type 0 where
  pub up : Bool
  pub entries : String → Option (Option Json)

pub record MemoryDb : Type 0 where
  pub up : Bool
  pub rows : String → Option PlaybackSession

pub record MemoryBroker : Type 0 where
  pub up : Bool
  pub topics : String → List (String × Option Json)

abbrev down : Fault
down = foreign "connection refused"

abbrev hit : Option (Option Json) → Outcome (Option Json)
hit none = err (sentinel redis_nil)
hit (some b) = ok b

abbrev found : Option PlaybackSession → Outcome PlaybackSession
found none = err (sentinel no_rows)
found (some s) = ok s

-- The row of a user: the columns under its key.
abbrev row : String → MemoryDb → Option PlaybackSession
row u d = Option.map (λ (s : PlaybackSession). record s { user_id = u }) (d.rows u)

abbrev exec : PlaybackSession → MemoryDb → Option Fault × MemoryDb
exec s d =
    if d.up
    then (none, record d { rows = λ v. if s.user_id == v then some s else d.rows v })
    else (some down, d)

abbrev write : String → String → Option Json → MemoryBroker → Option Fault × MemoryBroker
write topic key value b =
    if b.up
    then (
      none,
      record b {
        topics = λ t. if topic == t then b.topics t ++ ((key, value) ∷ []) else b.topics t;
      },
    )
    else (some down, b)

abbrev pub memory : External
memory = record {
  Bytes = Option Json;
  parse = λ b. b;
  print = some;
  is_empty = λ b. elim b [ none ↦ true | some v ↦ false ];
  unmarshal_error = λ b. foreign "invalid character";
  marshal_error = foreign "year outside of range [0,9999]";
  format_time = λ t. some (ticks t);
  parse_time = λ s. some (count s);
  Clock = ℕ;
  now = λ c. (c, c + 1);
  Cache = MemoryCache;
  cache_get = λ k c. (if c.up then hit (c.entries k) else err down, c);
  cache_set = λ k b ttl c.
      if c.up
      then (none, record c { entries = λ j. if k == j then some b else c.entries j })
      else (some down, c);
  Db = MemoryDb;
  query_row = λ u d. (if d.up then found (row u d) else err down, d);
  exec_upsert = exec;
  Broker = MemoryBroker;
  write_message = write;
  commit_message = λ msg b. (if b.up then none else some down, b);
}

memory-parse_format :
    (t : Time) (text : String) → memory.format_time t ≡ some text → memory.parse_time text ≡ some t
memory-parse_format t text e =
    let same : ticks t ≡ text = cc in ap some (rw (← same) (count-ticks t))

pub memory-IsReadable : IsReadable memory
memory-IsReadable = record { parse-print = λ v plain. refl; parse-format = memory-parse_format }

memory-set_effect :
    (k j : String) (b : Option Json) (ttl : ℕ) (c : MemoryCache)
    → let after = (memory.cache_set k b ttl c).1 in
      (after.entries j ≡ c.entries j)
      ⊎ (after.entries j ≡ none)
      ⊎ ((k ≡ j) × (after.entries j ≡ some b))
memory-set_effect k j b ttl c = elim (Bool-cases c.up) [
  | inr down ↦ inl (rw down)
  | inl up ↦ elim (Bool-cases (k == j)) [
    | inl same ↦ inr (inr ((eq_iff k j).0 same, ground arith))
    | inr other ↦ inl (ground arith)
  ]
]

pub memory-IsRedis : IsRedis memory
memory-IsRedis = record {
  entry = λ k c. c.entries k;
  get_hit = λ k c b e. ground arith;
  get_effect = λ k j c. inl refl;
  set_done = λ k b ttl c pos e. ground (arith, eq_refl k);
  set_effect = memory-set_effect;
}

pub memory-entry : (k : String) (c : MemoryCache) → memory-IsRedis.entry k c ≡ c.entries k
unfolding memory-IsRedis
memory-entry k c = refl

memory-missing :
    (u : String) (d : MemoryDb) (e : Fault)
    → (memory.query_row u d).0 ≡ err e
    → is e no_rows ≡ true
    → row u d ≡ none
unfolding is
memory-missing u d e answered missing = ground arith

pub memory-IsPostgres : IsPostgres memory
memory-IsPostgres = record {
  row = row;
  stored = λ s. s;
  stored_keeps = λ s. refl;
  row_keyed = λ u d s e. ground arith;
  query_found = λ u d s e. ground arith;
  query_missing = memory-missing;
  query_keeps = λ u v d. refl;
  exec_done = λ s d v e. ground (arith, eq_iff s.user_id v);
  exec_failed = λ s d f e. inl (λ v. ground arith);
}

pub memory-IsKafka : IsKafka memory
memory-IsKafka = record {
  messages = λ t b. b.topics t;
  write_done = λ topic t key value b e. ground arith;
}
