-- ===== src/Session/Requests.antt =====
-- The range of a decoded request body.
pub mod Fields
use mathlib.Core.Path.{subst}
use playback_service.Prelude.{String, ◌≡◌, true, some, Option-cases, inl, inr, ℤ, fits, arith}
use playback_service.Json.{
  Json, null, int, obj, Members, end, member, into_int, into_fields, into_struct,
}
use playback_service.Session.Model.{
  HeartbeatRequest, set_heartbeat, zero_heartbeat, decode_heartbeat,
}

into_int-fits :
    (v : Json) (old new : ℤ) → fits 64 old ≡ true → into_int v old ≡ some new → fits 64 new ≡ true
unfolding into_int
into_int-fits null old new h e = ground arith
into_int-fits (int n) old new h e = ground arith
into_int-fits _ old new h e = cc

set_heartbeat-fits :
    (key : String) (v : Json) (r r' : HeartbeatRequest)
    → fits 64 r.position ≡ true
    → set_heartbeat key v r ≡ some r'
    → fits 64 r'.position ≡ true
unfolding set_heartbeat
set_heartbeat-fits key null r r' h e = ground arith
set_heartbeat-fits key (int n) r r' h e = ground arith
set_heartbeat-fits key _ r r' h e = ground arith

into_fields-fits :
    (ms : Members) (r r' : HeartbeatRequest)
    → fits 64 r.position ≡ true
    → into_fields set_heartbeat ms r ≡ some r'
    → fits 64 r'.position ≡ true
unfolding into_fields
into_fields-fits end r r' h e =
    let same : r ≡ r' = cc in subst (λ (q : HeartbeatRequest). fits 64 q.position ≡ true) same h
into_fields-fits (member k v ms) r r' h e = elim (Option-cases (set_heartbeat k v r)) [
  | inl bad ↦ cc (rw (bad, into_fields) at e)
  | inr (q, good) ↦
      into_fields-fits ms q r' (set_heartbeat-fits k v r q h good) (rw (good, into_fields) at e)
]

-- The position of a heartbeat that is decoded from any JSON value is a Go integer of 64 bits.
pub decode_heartbeat-fits :
    (v : Json) (req : HeartbeatRequest)
    → decode_heartbeat v ≡ some req
    → fits 64 req.position ≡ true
unfolding decode_heartbeat into_struct
decode_heartbeat-fits null req e = ground arith
decode_heartbeat-fits (obj ms) req e = into_fields-fits ms zero_heartbeat req (ground arith) e
decode_heartbeat-fits _ req e = cc
