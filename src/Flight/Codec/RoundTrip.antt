-- ===== src/Flight/Codec/RoundTrip.antt =====
-- A flight record written as JSON and read back.
use uas_sustainment_workbenc.Base.{◌≡◌, refl, ap, List, [], ◌∷◌}
use uas_sustainment_workbenc.Base.Time.{DateTime}
use uas_sustainment_workbenc.Base.Json.{Json, whole, real, text, array}
use uas_sustainment_workbenc.Base.Decode.{Decoded, decoded, typed}
use uas_sustainment_workbenc.Flight.Record.{
  Source, px4, ardupilot, said, Maybe, known, unknown, FaultEvent, FlightRecord,
}
use uas_sustainment_workbenc.Flight.Codec.{
  Python, IsPython, source_text, as_source, out, maybe, faults_json, fault_list, fault_events,
  lifetime_json, lifetime, utc_start, record_to_json, record_from_json, as_text, as_real, as_whole,
}

-- A value whose reason, if it has one, is its words.
abbrev pub worded {ℓ} : {A : Type ℓ} → Python → Maybe A → Maybe A
worded py (known a) = known a
worded py (unknown r) = unknown (said (py.words r))

abbrev pub in_words : Python → FlightRecord → FlightRecord
in_words py r = record r {
  aircraft_key = worded py r.aircraft_key;
  utc_start = worded py r.utc_start;
  flight_time_s = worded py r.flight_time_s;
  arm_cycles = worded py r.arm_cycles;
  landings = worded py r.landings;
  battery_mah = worded py r.battery_mah;
  battery_wh = worded py r.battery_wh;
  fault_events = worded py r.fault_events;
  boot_count = worded py r.boot_count;
  lifetime = worded py r.lifetime;
}

module _ (py : Python) (laws : IsPython py) where
  maybe-out {ℓ} :
      {A : Type ℓ} (f : Json → Decoded A) (g : A → Json)
      → ((a : A) → maybe py f (g a) ≡ decoded (known a))
      → (m : Maybe A) → maybe py f (out py g m) ≡ decoded (worded py m)
  maybe-out f g value (known a) = value a
  maybe-out f g value (unknown r) =
      ap (λ s. decoded (unknown (said s))) (laws.str_text (py.words r))

  fault_list-faults_json : (es : List FaultEvent) → fault_list py (faults_json py es) ≡ decoded es
  fault_list-faults_json [] = refl
  fault_list-faults_json (e ∷ es) = rw (fault_list-faults_json es) refl

  as_source-source_text : (s : Source) → typed (as_source py (text (source_text s))) ≡ decoded s
  as_source-source_text px4 = refl
  as_source-source_text ardupilot = refl

  utc_field :
      (m : Maybe DateTime)
      → maybe py (utc_start py) (out py (λ t. text (py.isoformat t)) m) ≡ decoded (worded py m)
  utc_field m =
      maybe-out (utc_start py) (λ t. text (py.isoformat t)) (λ t. rw (laws.iso_round t) refl) m

  faults_field :
      (m : Maybe (List FaultEvent))
      → maybe py (fault_events py) (out py (λ es. array (faults_json py es)) m)
        ≡ decoded (worded py m)
  faults_field m =
      maybe-out (fault_events py) (λ es. array (faults_json py es))
        (λ es. rw (fault_list-faults_json es) refl) m

  -- Reading the JSON of a flight record gives the record back, the reasons of what is not known as their
  -- words, where fromisoformat reads what isoformat writes, str() keeps a text and float() a float.
  pub record_from_json-record_to_json :
      (r : FlightRecord) → record_from_json py (record_to_json py r) ≡ decoded (in_words py r)
  unfolding record_from_json record_to_json
  record_from_json-record_to_json r =
      rw
        (
          as_source-source_text r.source,
          laws.str_text r.log_ref,
          laws.str_text r.licence,
          laws.str_text r.attribution,
          laws.str_text r.firmware,
          laws.float_real r.log_span_s,
          maybe-out (λ v. typed (as_text py v)) text (λ s. refl) r.aircraft_key,
          utc_field r.utc_start,
          maybe-out (λ v. typed (as_real py v)) real (λ x. refl) r.flight_time_s,
          maybe-out (λ v. typed (as_whole py v)) whole (λ n. refl) r.arm_cycles,
          maybe-out (λ v. typed (as_whole py v)) whole (λ n. refl) r.landings,
          maybe-out (λ v. typed (as_real py v)) real (λ x. refl) r.battery_mah,
          maybe-out (λ v. typed (as_real py v)) real (λ x. refl) r.battery_wh,
          faults_field r.fault_events,
          maybe-out (λ v. typed (as_whole py v)) whole (λ n. refl) r.boot_count,
          maybe-out (lifetime py) (lifetime_json py) (λ c. refl) r.lifetime,
        )
        refl
