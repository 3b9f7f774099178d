-- ===== src/Examples/Reads.antt =====
-- Bob has started a session, and reads it while Ann pauses hers.
use playback_service.Prelude.{
  ℕ, Option, none, some, List, [], ◌∷◌, ◌≤◌, ◌≡◌, get_elem?, refl, arith,
}
use playback_service.Json.{Json, obj, member, str, end}
use playback_service.External.Memory.{memory, memory-IsReadable, memory-IsPostgres, memory-IsRedis}
use playback_service.Validator.Plain.{plain}
use playback_service.Handler.{RequestCtx}
use playback_service.Session.Handler.{Ctx}
use playback_service.Session.Service.Start.{started_session}
use playback_service.Concurrent.{ret}
use playback_service.Concurrent.System.{
  calls, request, get_current, pause, System, moved, asks, moves, Reach, here, next,
}
use playback_service.Concurrent.Bounded.Handler.{most}
use playback_service.Concurrent.Bounded.Answered.{own_moves, answered_within}
use playback_service.Concurrent.Safe.Reads.{Retells, AllReadsOnly, overlap_start_read}
use playback_service.Examples.Worlds.{healthy, start_bob}
use playback_service.Examples.Sessions.{start_ok}
use playback_service.Examples.Endpoints.{request as http_request}
use playback_service.Examples.Isolation.{healthy-IsKeyed}
use playback_service.Examples.Settled.{started_bob, bob_cached, ann-ne-bob}
use playback_service.Examples.Overlap.{after_moves, walk}

abbrev bob_reads : RequestCtx (Option Json)
bob_reads = http_request "bob" none

abbrev ann_pauses : RequestCtx (Option Json)
ann_pauses = http_request "ann" (some (obj (member "device_id" (str "tv") end)))

abbrev quiet : System memory plain
quiet = record { threads = []; world = started_bob }

abbrev both_ask : System memory plain
both_ask = record {
  threads =
      request bob_reads (calls memory plain get_current bob_reads)
      ∷ request ann_pauses (calls memory plain pause ann_pauses)
      ∷ [];
  world = started_bob;
}

abbrev both_ask-Reach : Reach memory plain quiet both_ask
both_ask-Reach = next (next here (asks get_current bob_reads quiet)) (asks pause ann_pauses _)

abbrev in_turn : List ℕ
in_turn = 1 ∷ 0 ∷ 1 ∷ 1 ∷ 0 ∷ 0 ∷ 1 ∷ 0 ∷ 0 ∷ 0 ∷ 0 ∷ 0 ∷ 1 ∷ 0 ∷ 0 ∷ 0 ∷ 0 ∷ 0 ∷ 0 ∷ 0 ∷ 1 ∷ []

abbrev walked : Reach memory plain both_ask (after_moves in_turn both_ask)
walked = walk in_turn both_ask here

many : most ≤ own_moves plain 0 walked
unfolding walk own_moves
many = omega arith

bob_answered :
    (after : Ctx memory plain) × (get_elem? (after_moves in_turn both_ask).threads 0
      ≡ some (request bob_reads (ret after)))
bob_answered =
    answered_within plain get_current bob_reads 0 both_ask (after_moves in_turn both_ask) walked
      refl many

walk-AllReadsOnly :
    (is : List ℕ) (a b : System memory plain) (r : Reach memory plain a b)
    → AllReadsOnly plain "bob" r
    → AllReadsOnly plain "bob" (walk is b r)
unfolding walk
walk-AllReadsOnly [] a b r only = only
walk-AllReadsOnly (i ∷ is) a b r only =
    walk-AllReadsOnly is a (moved memory plain i b) (next r (moves i b)) (only, tt)

overlap_start_read_example :
    Retells memory-IsPostgres (started_session memory "bob" start_bob healthy) bob_answered.0
overlap_start_read_example =
    overlap_start_read memory-IsRedis memory-IsReadable memory-IsPostgres plain "bob" start_bob
      healthy 0 quiet (after_moves in_turn both_ask) (walk in_turn both_ask both_ask-Reach)
      healthy-IsKeyed refl start_ok bob_cached refl
      (walk-AllReadsOnly in_turn quiet both_ask both_ask-Reach ((tt, tt), ann-ne-bob)) 0 bob_reads
      bob_answered.0 refl bob_answered.1
