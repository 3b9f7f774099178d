-- ===== src/Session/Isolation/Keyed.antt =====
-- Whose session is cached under a key, for the cache and for the goroutines that warm it.
use text.Mathlib.TextLemmas.{append_cancel_left}
use playback_service.Prelude.{ℕ, String, ◌<>◌, ◌≡◌, ap, ◌∙◌, some}
use playback_service.Session.Model.{PlaybackSession}
use playback_service.External.{External, ok}
use playback_service.External.Laws.{IsReadable, IsRedis}
use playback_service.World.{World}
use playback_service.World.Tasks.{cache_key_prefix, marshal_for_cache}
use playback_service.World.Held.{Held}
use playback_service.Session.Repository.{unmarshal_session}
use playback_service.Session.Repository.Decoded.{marshal_for_cache-key, marshal_for_cache-decoded}

module _ (x : External) where
  -- The session in the bytes is that of the user whose key it is.
  abbrev pub Belongs : String → x.Bytes → Type 0
  Belongs key b =
      (u : String) (s : PlaybackSession)
      → key ≡ cache_key_prefix <> u
      → unmarshal_session x b ≡ some s
      → s.user_id ≡ u

  -- A goroutine may hold any pointer: it will marshal under the key of the session that it finds.
  abbrev pub AnyPointer : (ℕ → PlaybackSession) → ℕ → ℕ → Type 0
  AnyPointer o n p = Unit

  pub marshal_for_cache-Belongs :
      (readable : IsReadable x) (s : PlaybackSession) (key : String) (b : x.Bytes)
      → marshal_for_cache x s ≡ ok (key, b)
      → Belongs key b
  marshal_for_cache-Belongs readable s key b made u t same decoded =
      let own = marshal_for_cache-key x s key b made in
      let read = marshal_for_cache-decoded readable s t key b made decoded in
      ap (λ (r : PlaybackSession). r.user_id) read
      ∙ append_cancel_left cache_key_prefix s.user_id u (own ∙ same)

-- Every cached session is under the key of its own user, and stays so when the pending goroutines
-- have written theirs.
abbrev pub IsKeyed : {x : External} → IsRedis x → World x → Type 0
IsKeyed {x} redis w = Held redis (Belongs x) (AnyPointer x) w
