-- ===== src/Examples/Worlds.antt =====
-- Worlds for the examples.
use playback_service.Prelude.{ℕ, Bool, true, none, some, List, [], pos, ◌==◌, if◌then◌else◌}
use playback_service.Session.Model.{
  PlaybackSession, StartRequest, HeartbeatRequest, zero_session, status_playing,
}
use playback_service.External.Memory.{memory}
use playback_service.World.{World}

abbrev pub ann : PlaybackSession
ann = record {
  user_id = "ann";
  track_id = "t1";
  position = pos 42;
  status = status_playing;
  device_id = "phone";
  updated_at = 3;
}

-- Nothing is cached, Ann's session is in the database, and the services are up or down.
abbrev pub world_of : (cache_up db_up broker_up : Bool) → List (List ℕ) → World memory
world_of cache_up db_up broker_up schedule = record {
  cache = record { up = cache_up; entries = λ k. none };
  db = record { up = db_up; rows = λ u. if u == "ann" then some ann else none };
  broker = record { up = broker_up; topics = λ t. [] };
  clock = 7;
  objects = λ p. zero_session;
  next = 0;
  tasks = [];
  schedule = schedule;
  log = [];
}

abbrev pub healthy : World memory
healthy = world_of true true true []

abbrev pub start_bob : StartRequest
start_bob = record { track_id = "t2"; device_id = "tv"; position = pos 5 }

abbrev pub beat_ann : HeartbeatRequest
beat_ann = record { track_id = "t1"; position = pos 47; device_id = "phone" }
