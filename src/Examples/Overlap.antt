-- ===== src/Examples/Overlap.antt =====
-- Requests of two users at the same time, their calls in turn.
use playback_service.Prelude.{
  ℕ, Option, none, some, List, [], ◌∷◌, ◌≡◌, ◌≤◌, refl, get_elem?, arith,
}
use playback_service.Json.{Json}
use playback_service.External.Memory.{memory, memory-IsReadable, memory-IsPostgres, memory-IsRedis}
use playback_service.Validator.Plain.{plain}
use playback_service.Handler.{RequestCtx}
use playback_service.Session.Handler.{Ctx}
use playback_service.Session.Isolation.Bodies.{Discloses}
use playback_service.Session.Isolation.Keyed.{IsKeyed}
use playback_service.Concurrent.{ret}
use playback_service.Concurrent.System.{
  get_current, heartbeat, calls, request, System, moved, asks, moves, Reach, here, next,
}
use playback_service.Concurrent.Safe.Responses.{Overlap-Discloses}
use playback_service.Concurrent.Bounded.Handler.{most}
use playback_service.Concurrent.Bounded.Answered.{own_moves, answered_within}
use playback_service.Examples.Worlds.{healthy}
use playback_service.Examples.Endpoints.{request as http_request, beat_body}
use playback_service.Examples.Isolation.{healthy-IsKeyed}

abbrev ann_asks : RequestCtx (Option Json)
ann_asks = http_request "ann" none

abbrev bob_beats : RequestCtx (Option Json)
bob_beats = http_request "bob" beat_body

abbrev idle : System memory plain
idle = record { threads = []; world = healthy }

-- Ann reads while Bob's heartbeat comes in.
abbrev both : System memory plain
both = record {
  threads =
      request ann_asks (calls memory plain get_current ann_asks)
      ∷ request bob_beats (calls memory plain heartbeat bob_beats)
      ∷ [];
  world = healthy;
}

both-Reach : Reach memory plain idle both
both-Reach = next (next here (asks get_current ann_asks idle)) (asks heartbeat bob_beats _)

abbrev pub after_moves : List ℕ → System memory plain → System memory plain
after_moves [] s = s
after_moves (i ∷ is) s = after_moves is (moved memory plain i s)

unfoldable pub walk :
    {s : System memory plain} (is : List ℕ) (t : System memory plain)
    → Reach memory plain s t
    → Reach memory plain s (after_moves is t)
walk [] t r = r
walk (i ∷ is) t r = walk is (moved memory plain i t) (next r (moves i t))

abbrev in_turn : List ℕ
in_turn = 0 ∷ 1 ∷ 1 ∷ 0 ∷ 1 ∷ 0 ∷ 1 ∷ 1 ∷ 0 ∷ 0 ∷ 1 ∷ 0 ∷ 0 ∷ 0 ∷ 0 ∷ 0 ∷ 0 ∷ 0 ∷ 0 ∷ 0 ∷ 0 ∷ 1 ∷ []

abbrev walked : Reach memory plain both (after_moves in_turn both)
walked = walk in_turn both here

many : most ≤ own_moves plain 0 walked
unfolding walk own_moves
many = omega arith

ann_answered :
    (after : Ctx memory plain) × (get_elem? (after_moves in_turn both).threads 0
      ≡ some (request ann_asks (ret after)))
ann_answered =
    answered_within plain get_current ann_asks 0 both (after_moves in_turn both) walked refl many

Overlap-Discloses_example :
    IsKeyed memory-IsRedis (after_moves in_turn both).world
    × Discloses memory "ann" ann_asks ann_answered.0
Overlap-Discloses_example =
    Overlap-Discloses memory-IsRedis memory-IsReadable memory-IsPostgres plain idle
      (after_moves in_turn both) 0 ann_asks ann_answered.0 healthy-IsKeyed refl
      (walk in_turn both both-Reach) ann_answered.1
