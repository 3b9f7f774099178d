-- ===== src/Config/Defaults.antt =====
-- What the configuration is where neither the file nor the environment sets a key.
use mathlib.Core.Option
use playback_service.Prelude.{
  String, ◌≡◌, refl, ap, ◌∙◌, Option, none, some, inl, inr, List, [], ◌∷◌, ◌==◌, Bool-cases,
  if◌then◌else◌, arith,
}
use playback_service.External.{Outcome, ok, err}
use playback_service.Kafka.Settings.{ConsumerConfig}
use playback_service.Session.Service.{heartbeat_topic}
use playback_service.Config.{
  Config, Value, text, Settings, File, Viper, loaded, field, text_at, duration_at, truth_at,
  postgres_config, redis_config, producer_config, consumer_config, config, settings, config_name,
  unmarshalled, read, from_file, load, ◌>>=◌,
}

abbrev pub default : List (String × Value) → String → Option Value
default [] key = none
default ((k, v) ∷ rest) key = if k == key then some v else default rest key

-- What the source relies on of viper: `environment` is the value that the environment gives to a key.
-- A text reads as itself.
pub record IsViper (v : Viper) : Type 0 where
  pub environment : String → Option Value
  pub default_used :
      (s : Settings) (file : File) (key : String)
      → environment key ≡ none
      → file key ≡ none
      → v.lookup s file key ≡ default s.defaults key
  pub text_read : (t : String) → v.as_text (text t) ≡ some t

-- The file that `Load` reads does not set the key.
abbrev pub FileWithout : String → Outcome File → Type 0
FileWithout key (ok file) = file key ≡ none
FileWithout key (err e) = Unit

bound-some :
    {A B : Type 0} (m : Option A) (f : A → Option B) (b : B)
    → m >>= f ≡ some b
    → (a : A) × (m ≡ some a) × (f a ≡ some b)
bound-some none f b made = cc
bound-some (some a) f b made = (a, refl, made)

module _ (v : Viper) where
  consumer_config-topic :
      (get : String → Option Value) (c : ConsumerConfig)
      → consumer_config v get ≡ some c
      → text_at v get "kafka_consumer.topic" ≡ some c.topic
  unfolding consumer_config
  consumer_config-topic get c made = ground arith

  config-consumer :
      (get : String → Option Value) (c : Config)
      → config v get ≡ some c
      → consumer_config v get ≡ some c.kafka_consumer
  unfolding config
  config-consumer get c made =
      let (name, _, ported) = bound-some (text_at v get "service_name") _ c made in
      let (port, _, leveled) = bound-some (text_at v get "http_port") _ c ported in
      let (level, _, timed) = bound-some (text_at v get "log_level") _ c leveled in
      let (timeout, _, traced) = bound-some (duration_at v get "shutdown_timeout") _ c timed in
      let (tracing, _, exported) = bound-some (truth_at v get "tracing_enabled") _ c traced in
      let (endpoint, _, stored) = bound-some (text_at v get "otlp_endpoint") _ c exported in
      let (pg, _, cached) = bound-some (postgres_config v get) _ c stored in
      let (rd, _, produced) = bound-some (redis_config v get) _ c cached in
      let (producer, _, consumed) = bound-some (producer_config v get) _ c produced in
      let (consumer, found, whole) = bound-some (consumer_config v get) _ c consumed in
      found ∙ ap (Option.map (λ (d : Config). d.kafka_consumer)) whole

  unmarshalled-loaded :
      (s : Settings) (file : File) (o : Option Config) (c : Config)
      → unmarshalled v s file o ≡ loaded c
      → o ≡ some c
  unmarshalled-loaded s file none c made = cc
  unmarshalled-loaded s file (some d) c made = ap some (cc)

  module _ (lawful : IsViper v) (unset : lawful.environment "kafka_consumer.topic" ≡ none) where
    read-topic :
        (name : String) (file : File) (c : Config)
        → file "kafka_consumer.topic" ≡ none
        → read v (settings v name) file ≡ loaded c
        → c.kafka_consumer.topic ≡ heartbeat_topic
    read-topic name file c absent made =
        let s = settings v name in
        let get = v.lookup s file in
        let whole = unmarshalled-loaded s file (config v get) c made in
        let topic = consumer_config-topic get c.kafka_consumer (config-consumer get c whole) in
        let value : get "kafka_consumer.topic" ≡ some (text "playback.heartbeat") =
          lawful.default_used s file "kafka_consumer.topic" unset absent in
        let topic_text : text_at v get "kafka_consumer.topic" ≡ some "playback.heartbeat" =
          ap (field v v.as_text "") value ∙ lawful.text_read "playback.heartbeat" in
        cc (topic, topic_text)

    from_file-topic :
        (name : String) (r : Outcome File) (c : Config)
        → FileWithout "kafka_consumer.topic" r
        → from_file v (settings v name) r ≡ loaded c
        → c.kafka_consumer.topic ≡ heartbeat_topic
    from_file-topic name (ok file) c absent made = read-topic name file c absent made
    from_file-topic name (err e) c absent made = elim (Bool-cases (v.is_not_found e)) [
      | inl missing ↦ read-topic name (λ key. none) c refl (rw missing at made)
      | inr other ↦ cc (rw other at made)
    ]

-- The consumer reads what the service writes: where neither the file nor the environment sets its
-- topic, a configuration that `Load` returns has the topic to which `Heartbeat` publishes, also where
-- there is no file. This relies on the defaults of viper.
pub load-topic :
    (v : Viper) (lawful : IsViper v) (c : Config)
    → lawful.environment "kafka_consumer.topic" ≡ none
    → FileWithout "kafka_consumer.topic"
        (v.read_in_config (config_name v) "yaml" ("./configs" ∷ "." ∷ "/etc/service/" ∷ []))
    → load v ≡ loaded c
    → c.kafka_consumer.topic ≡ heartbeat_topic
unfolding load
load-topic v lawful c unset absent made =
    from_file-topic v lawful unset (config_name v) _ c absent made
