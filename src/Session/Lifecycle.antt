-- ===== src/Session/Lifecycle.antt =====
-- internal/session/consumer.go: the hooks of the heartbeat consumer.
use playback_service.Prelude.{Option, none, some}
use playback_service.Apperror.{Fault}
use playback_service.Platform.{Platform, consumer_started, consumer_canceled, reader_closed}
use playback_service.Process.{Env, Hook, Boot, pure, ◌>>=◌, ◌>>◌, do_act, ask, append}

module _ (p : Platform) where
  -- go hc.consumer.Run(ctx, hc.handle)
  abbrev pub start_consumer : Env → Option Fault × Env
  start_consumer = do do_act consumer_started; pure none

  abbrev pub stop_consumer : Env → Option Fault × Env
  stop_consumer = do
    do_act consumer_canceled
    failed ← ask p.close_reader
    do_act reader_closed
    pure failed

  abbrev pub consumer_hook : Hook
  consumer_hook = record { on_start = some start_consumer; on_stop = some stop_consumer }

  unfoldable pub register_consumer : Boot → Unit {0} × Boot
  register_consumer = append consumer_hook
