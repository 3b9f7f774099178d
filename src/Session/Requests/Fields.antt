-- ===== src/Session/Requests/Fields.antt =====
-- The fields of a decoded request body, each on its own.
use playback_service.Prelude.{
  ℕ, String, ◌≡◌, refl, Bool, true, false, ◌&&◌, Bool-cases, inl, inr, none, some, List, [], ◌∷◌,
  eqb, ℤ, pos, fits, if◌then◌else◌, arith,
}
use playback_service.Json.{
  Json, null, int, str, obj, Members, end, member, codes, fold_rune, same_folded, names_field,
  into_text, into_int, into_fields, into_struct,
}
use playback_service.Session.Model.{
  HeartbeatRequest, set_heartbeat, zero_heartbeat, decode_heartbeat,
}

-- What a member says of a field with this tag.
abbrev text_in : Json → String → String
text_in (str s) old = s
text_in _ old = old

abbrev int_in : Json → ℤ → ℤ
int_in (int n) old = n
int_in _ old = old

-- The last member that names the tag and is not null; the first argument but the tag, if none is.
abbrev pub last_text : String → String → Members → String
last_text tag old end = old
last_text tag old (member k v ms) =
    last_text tag (if names_field tag k then text_in v old else old) ms

abbrev pub last_int : String → ℤ → Members → ℤ
last_int tag old end = old
last_int tag old (member k v ms) = last_int tag (if names_field tag k then int_in v old else old) ms

abbrev is_text : Json → Bool
is_text null = true
is_text (str s) = true
is_text _ = false

abbrev is_int : Json → Bool
is_int null = true
is_int (int n) = fits 64 n
is_int _ = false

-- Whether each member that names a field of a request has a value of the field's type, or null.
abbrev pub well_typed : Members → Bool
well_typed end = true
well_typed (member k v ms) =
    (if names_field "track_id" k then is_text v else true)
    && ((if names_field "device_id" k then is_text v else true)
        && ((if names_field "position_sec" k then is_int v else true) && well_typed ms))

and_true : (a b : Bool) → (a && b) ≡ true → (a ≡ true) × (b ≡ true)
and_true true b e = (refl, e)
and_true false b e = cc

same_folded_trans :
    (a b c : List ℕ) → same_folded a c ≡ true → same_folded b c ≡ true → same_folded a b ≡ true
unfolding same_folded
same_folded_trans [] [] c h k = refl
same_folded_trans [] (y ∷ b) [] h k = cc
same_folded_trans [] (y ∷ b) (z ∷ c) h k = cc
same_folded_trans (x ∷ a) [] [] h k = cc
same_folded_trans (x ∷ a) [] (z ∷ c) h k = cc
same_folded_trans (x ∷ a) (y ∷ b) [] h k = cc
same_folded_trans (x ∷ a) (y ∷ b) (z ∷ c) h k =
    let (h0, h1) = and_true (eqb (fold_rune x) (fold_rune z)) (same_folded a c) h in
    let (k0, k1) = and_true (eqb (fold_rune y) (fold_rune z)) (same_folded b c) k in
    let here : fold_rune x ≡ fold_rune y = ground (arith, h0, k0) in
    let rest = same_folded_trans a b c h1 k1 in rw (here, rest) (ground arith)

-- A key names one field only.
apart :
    (tag other key : String)
    → same_folded (codes tag) (codes other) ≡ false
    → names_field tag key ≡ true
    → names_field other key ≡ false
unfolding names_field
apart tag other key distinct named = elim (Bool-cases (names_field other key)) [
  | inr e ↦ e
  | inl both ↦ cc (same_folded_trans (codes tag) (codes other) (codes key) named both, distinct)
]

-- The request that the members of an object make of r.
heartbeat_of : Members → HeartbeatRequest → HeartbeatRequest
heartbeat_of ms r = record {
  track_id = last_text "track_id" r.track_id ms;
  position = last_int "position_sec" r.position ms;
  device_id = last_text "device_id" r.device_id ms;
}

-- One member.
heartbeat_with : String → Json → HeartbeatRequest → HeartbeatRequest
heartbeat_with k v r = record {
  track_id = if names_field "track_id" k then text_in v r.track_id else r.track_id;
  position = if names_field "position_sec" k then int_in v r.position else r.position;
  device_id = if names_field "device_id" k then text_in v r.device_id else r.device_id;
}

member_typed : String → Json → Bool
member_typed k v =
    (if names_field "track_id" k then is_text v else true)
    && ((if names_field "device_id" k then is_text v else true)
        && (if names_field "position_sec" k then is_int v else true))

into_text-is_text :
    (v : Json) (old : String) → into_text v old ≡ (if is_text v then some (text_in v old) else none)
unfolding into_text
into_text-is_text null old = refl
into_text-is_text (str s) old = refl
into_text-is_text _ old = refl

into_int-is_int :
    (v : Json) (old : ℤ) → into_int v old ≡ (if is_int v then some (int_in v old) else none)
unfolding into_int
into_int-is_int null old = refl
into_int-is_int (int n) old = refl
into_int-is_int _ old = refl

-- No key names two fields of a request.
track-only :
    (k : String)
    → names_field "track_id" k ≡ true
    → (names_field "device_id" k ≡ false) × (names_field "position_sec" k ≡ false)
unfolding same_folded codes fold_rune
track-only k e = (apart "track_id" "device_id" k refl e, apart "track_id" "position_sec" k refl e)

device-only : (k : String) → names_field "device_id" k ≡ true → names_field "position_sec" k ≡ false
unfolding same_folded codes fold_rune
device-only k e = apart "device_id" "position_sec" k refl e

position-only :
    (k : String) → names_field "position_sec" k ≡ true → names_field "device_id" k ≡ false
unfolding same_folded codes fold_rune
position-only k e = apart "position_sec" "device_id" k refl e

set_heartbeat-with :
    (k : String) (v : Json) (r : HeartbeatRequest)
    → set_heartbeat k v r ≡ (if member_typed k v then some (heartbeat_with k v r) else none)
unfolding set_heartbeat heartbeat_with member_typed
set_heartbeat-with k v r = elim (Bool-cases (names_field "track_id" k)) [
  | inl track ↦
      let (no_device, no_position) = track-only k track in
      rw (track, no_device, no_position, into_text-is_text v r.track_id)
        (elim (Bool-cases (is_text v)) [ inl t ↦ rw t refl | inr t ↦ rw t refl ])
  | inr no_track ↦ elim (Bool-cases (names_field "position_sec" k)) [
    | inl position ↦
        let no_device = position-only k position in
        rw (no_track, position, no_device, into_int-is_int v r.position)
          (elim (Bool-cases (is_int v)) [ inl t ↦ rw t refl | inr t ↦ rw t refl ])
    | inr no_position ↦ elim (Bool-cases (names_field "device_id" k)) [
      | inl device ↦
          rw (no_track, no_position, device, into_text-is_text v r.device_id)
            (elim (Bool-cases (is_text v)) [ inl t ↦ rw t refl | inr t ↦ rw t refl ])
      | inr no_device ↦ rw (no_track, no_position, no_device) refl
    ]
  ]
]

well_typed-member :
    (k : String) (v : Json) (ms : Members)
    → well_typed (member k v ms) ≡ (member_typed k v && well_typed ms)
unfolding member_typed
well_typed-member k v ms = ground arith

into_fields-heartbeat :
    (ms : Members) (r : HeartbeatRequest)
    → into_fields set_heartbeat ms r ≡ (if well_typed ms then some (heartbeat_of ms r) else none)
unfolding into_fields heartbeat_of heartbeat_with
into_fields-heartbeat end r = refl
into_fields-heartbeat (member k v ms) r = elim (Bool-cases (member_typed k v)) [
  | inl typed ↦
      rw (well_typed-member k v ms, typed, into_fields, set_heartbeat-with k v r, typed)
        (into_fields-heartbeat ms (heartbeat_with k v r))
  | inr bad ↦ rw (well_typed-member k v ms, bad, into_fields, set_heartbeat-with k v r, bad) refl
]

-- The body of a heartbeat is read field by field. It is refused exactly if a member that names a field
-- has a value of another type, or a position beyond 64 bits; null is of every type. Otherwise each
-- field has the value of the last member that names it and is not null, in any order of the members
-- and up to the case of the key, and the zero value if there is none.
pub decode_heartbeat-fields :
    (ms : Members)
    → decode_heartbeat (obj ms) ≡ (
        if well_typed ms
        then some (record {
          track_id = last_text "track_id" "" ms;
          position = last_int "position_sec" (pos 0) ms;
          device_id = last_text "device_id" "" ms;
        })
        else none)
unfolding decode_heartbeat into_struct heartbeat_of
decode_heartbeat-fields ms = into_fields-heartbeat ms zero_heartbeat
