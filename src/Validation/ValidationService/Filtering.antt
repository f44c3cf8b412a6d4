-- ===== src/Validation/ValidationService/Filtering.antt =====
-- Which relays `filterRelays` stores and returns.
use operator_registry_contro.Prelude.{
  ◌≡◌, refl, sym, Bool, true, false, not, Option, none, some, List, [], ◌∷◌, Text, text, is_empty,
  index_of, starts_with, lower, filter, Bool-cases, inl, inr, Result, ok, err, continue, Ensures,
  Ensures-map, Ensures-continue, arith,
}
use operator_registry_contro.Validation.Dto.{RelayDataDto}
use operator_registry_contro.Validation.RelayInfoService.{upsert_many}
use operator_registry_contro.Validation.RelayInfoService.Upserts.{
  HasUpserted, AddsAll, Any, fingerprints_of, upsert_many-AddsAll,
}
use operator_registry_contro.Validation.RelayInfoService.Written.{HasWritten}
use operator_registry_contro.Validation.ValidationService.Pattern.{
  HasPattern, IsWanted, is_matching-IsWanted, is_matching-unwanted,
}
use operator_registry_contro.GeoIp.{cache_check}
use operator_registry_contro.GeoIp.Freshness.{cache_check-keeps}
use operator_registry_contro.World.{World, Error, GeoIp}
use operator_registry_contro.Validation.ValidationService.{
  DetailsRelay, ValidationService, or_else, has_pattern, is_matching, fingerprint_to_geo_hex,
  relay_data, relay_data_list, store_matching, filter_relays,
}

abbrev has_contact : RelayDataDto → Bool
has_contact relay = not (is_empty relay.contact)

has_contact_of_pattern :
    (contact : Option Text)
    → has_pattern contact ≡ true
    → not (is_empty (or_else contact [])) ≡ true
unfolding has_pattern lower index_of starts_with
has_contact_of_pattern none h = cc
has_contact_of_pattern (some []) h = h
has_contact_of_pattern (some (c ∷ contact)) h = refl

module _ {E : Type 0} (x : ValidationService E) where
  -- The record of a relay has what the details say, with a default where they say nothing; its address is
  -- empty. The cell of its place is left open.
  pub record HasDetails (info : DetailsRelay) (relay : RelayDataDto) : Type 0 where
    pub fingerprint_eq : relay.fingerprint ≡ info.fingerprint
    pub contact_eq : some relay.contact ≡ info.contact
    pub address_eq : relay.any1_address ≡ []
    pub nickname_eq : relay.nickname ≡ info.nickname
    pub running_eq : relay.running ≡ info.running
    pub weight_eq : relay.consensus_weight ≡ info.consensus_weight
    pub measured_eq : relay.consensus_measured ≡ or_else info.measured false
    pub fraction_eq :
        relay.consensus_weight_fraction ≡ or_else info.consensus_weight_fraction x.zero_double
    pub version_eq : relay.version ≡ or_else info.version (text "?")
    pub status_eq : relay.version_status ≡ or_else info.version_status []
    pub rate_eq : relay.bandwidth_rate ≡ or_else info.bandwidth_rate 0
    pub burst_eq : relay.bandwidth_burst ≡ or_else info.bandwidth_burst 0
    pub observed_eq : relay.observed_bandwidth ≡ or_else info.observed_bandwidth 0
    pub advertised_eq : relay.advertised_bandwidth ≡ or_else info.advertised_bandwidth 0
    pub family_eq : relay.effective_family ≡ or_else info.effective_family []
    pub hardware_eq : relay.hardware_info ≡ info.hardware_info

  -- The wanted relays of the details in their order, each with its record, and no others.
  pub data Filters : List DetailsRelay → List RelayDataDto → Type 0 where
    all_read : Filters [] []
    kept :
        {infos : List DetailsRelay} {relays : List RelayDataDto} (info : DetailsRelay)
        (relay : RelayDataDto)
        → IsWanted x.banned_fingerprints info
        → HasDetails info relay
        → Filters infos relays
        → Filters (info ∷ infos) (relay ∷ relays)
    dropped :
        {infos : List DetailsRelay} {relays : List RelayDataDto} (info : DetailsRelay)
        → ¬ (IsWanted x.banned_fingerprints info)
        → Filters infos relays
        → Filters (info ∷ infos) relays

  -- What is kept of a list of records, if it could be made.
  abbrev Keeps : List DetailsRelay → Result Error (List RelayDataDto) → Type 0
  Keeps infos (ok relays) = Filters infos (filter has_contact relays)
  Keeps infos (err e) = Unit

  abbrev Cons :
      Result Error Text
      → Result Error (List RelayDataDto)
      → (Text → RelayDataDto)
      → Result Error (List RelayDataDto)
  Cons hex more relay = elim hex [
    | err e ↦ err e
    | ok h ↦ elim more [ err e ↦ err e | ok relays ↦ ok (relay h ∷ relays) ]
  ]

  cons-Keeps :
      (info : DetailsRelay) (infos : List DetailsRelay) (hex : Result Error Text)
      (more : Result Error (List RelayDataDto)) (relay : Text → RelayDataDto)
      → IsWanted x.banned_fingerprints info
      → ((h : Text) → has_contact (relay h) ≡ true)
      → ((h : Text) → HasDetails info (relay h))
      → Keeps infos more
      → Keeps (info ∷ infos) (Cons hex more relay)
  cons-Keeps info infos (err e) more relay wanted c d k = tt
  cons-Keeps info infos (ok h) (err e) relay wanted c d k = tt
  cons-Keeps info infos (ok h) (ok relays) relay wanted c d k =
      rw (c h) (kept info (relay h) wanted (d h) k)

  drop-Keeps :
      (info : DetailsRelay) (infos : List DetailsRelay) (r : Result Error (List RelayDataDto))
      → ¬ (IsWanted x.banned_fingerprints info)
      → Keeps infos r
      → Keeps (info ∷ infos) r
  drop-Keeps info infos (ok relays) unwanted k = dropped info unwanted k
  drop-Keeps info infos (err e) unwanted k = tt

  abbrev matching : List DetailsRelay → List DetailsRelay
  matching relays = filter (is_matching x.banned_fingerprints) relays

  has_contact_of_matching :
      (info : DetailsRelay) (hex : Text)
      → is_matching x.banned_fingerprints info ≡ true
      → has_contact (relay_data x info hex) ≡ true
  unfolding relay_data is_matching
  has_contact_of_matching info hex m = has_contact_of_pattern info.contact (ground arith)

  contact_of_wanted :
      (contact : Option Text) → HasPattern contact → some (or_else contact []) ≡ contact
  contact_of_wanted none h = absurd h
  contact_of_wanted (some contact) h = refl

  data_of_details :
      (info : DetailsRelay) (hex : Text)
      → IsWanted x.banned_fingerprints info
      → HasDetails info (relay_data x info hex)
  unfolding relay_data
  data_of_details info hex wanted = record {
    fingerprint_eq = refl;
    contact_eq = contact_of_wanted info.contact wanted.1;
    address_eq = refl;
    nickname_eq = refl;
    running_eq = refl;
    weight_eq = refl;
    measured_eq = refl;
    fraction_eq = refl;
    version_eq = refl;
    status_eq = refl;
    rate_eq = refl;
    burst_eq = refl;
    observed_eq = refl;
    advertised_eq = refl;
    family_eq = refl;
    hardware_eq = refl;
  }

  list-Keeps :
      (g : GeoIp) (infos : List DetailsRelay) → Keeps infos (relay_data_list x g (matching infos))
  unfolding relay_data_list
  list-Keeps g [] = all_read
  list-Keeps g (info ∷ infos) = elim (Bool-cases (is_matching x.banned_fingerprints info)) [
    | inr out ↦ rw out (
        drop-Keeps info infos (relay_data_list x g (matching infos))
          (is_matching-unwanted x.banned_fingerprints info out) (list-Keeps g infos))
    | inl m ↦
        let wanted = is_matching-IsWanted x.banned_fingerprints info m in
        rw m (
          cons-Keeps info infos (fingerprint_to_geo_hex x g info.fingerprint)
            (relay_data_list x g (matching infos)) (relay_data x info) wanted
            (λ h. has_contact_of_matching info h m) (λ h. data_of_details info h wanted)
            (list-Keeps g infos))
  ]

  -- What was returned and stored, for the relays `infos` of the details server.
  abbrev pub Filtered : List DetailsRelay → World E → List Text → World E → Type 0
  Filtered infos w fingerprints w' =
      (relays : List RelayDataDto) × Filters infos relays
      × (fingerprints ≡ fingerprints_of relays)
      × HasUpserted (fingerprints_of relays) w w'
      × HasWritten relays w.relay_infos w'.relay_infos

  stored :
      (infos : List DetailsRelay) (r : Result Error (List RelayDataDto)) (w v : World E)
      → Keeps infos r
      → v.relay_infos ≡ w.relay_infos
      → Ensures
          (Filtered infos w)
          Any
          (continue r (λ ds. upsert_many x.store (filter has_contact ds)) v).0
          (continue r (λ ds. upsert_many x.store (filter has_contact ds)) v).1
  stored infos (err e) w v k same = tt
  stored infos (ok ds) w v k same =
      Ensures-map (AddsAll [] (filter has_contact ds) v) (Filtered infos w) Any
        (upsert_many x.store (filter has_contact ds) v).0
        (upsert_many x.store (filter has_contact ds) v).1
        (upsert_many-AddsAll x.store (filter has_contact ds) v)
        λ fps w' (e, u, written). (
          filter has_contact ds,
          k,
          e,
          record { stored = λ f. rw (sym same) (u.stored f) },
          λ f q. rw (sym same) (written f q),
        )

  store_matching-Filtered :
      (infos : List DetailsRelay) (w v : World E)
      → v.relay_infos ≡ w.relay_infos
      → Ensures (Filtered infos w) Any (store_matching x infos v).0 (store_matching x infos v).1
  unfolding store_matching
  store_matching-Filtered infos w v same =
      stored infos (relay_data_list x v.geo_ip (matching infos)) w v (list-Keeps v.geo_ip infos)
        same

  -- If filtering returns, it returns the fingerprints of the wanted relays of the details in their order: of
  -- exactly those that are not banned and whose contact has the pattern, in capitals or not. A fingerprint
  -- is stored then exactly if it was before or is that of one of them, and with exactly the data of a record
  -- that has what the details say of the relay, the last one if it is there twice. The data stored for
  -- other fingerprints are as they were.
  pub filter_relays-Filtered :
      (relays : List DetailsRelay) (w : World E)
      → Ensures (Filtered relays w) Any (filter_relays x relays w).0 (filter_relays x relays w).1
  unfolding filter_relays
  filter_relays-Filtered relays w =
      let checked = cache_check x.geo_ip w in
      Ensures-continue (λ _ v. v.relay_infos ≡ w.relay_infos) (Filtered relays w) Any checked.0
        (λ _. store_matching x relays) checked.1 (cache_check-keeps x.geo_ip w)
        λ _ v same. store_matching-Filtered relays w v same
