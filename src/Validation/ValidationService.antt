-- ===== src/Validation/ValidationService.antt =====
-- src/validation/validation.service.ts. The request to the details server, `Date.parse`,
-- `toUTCString` and `latLngToCell` of the package h3-js are parameters.
pub mod Pattern
pub mod Filtering
pub mod Validating
use operator_registry_contro.Prelude.{
  ℕ, zero, suc, Bool, true, false, ◌&&◌, not, Option, none, some, List, [], ◌∷◌, ◌++◌, Text, text,
  includes, index_of, is_some, is_empty, lower, filter, map, ltb, eqb, if◌then◌else◌, Result, ok,
  err, Action, ◌>>=◌, ◌>>◌, pure, try_catch,
}
use operator_registry_contro.Validation.Dto.{
  Double, RelayHardwareInfo, RelayDataDto, ValidationDataDto,
}
use operator_registry_contro.Validation.AtorKey.{Ethers, ator_key_pattern, extract_ator_key}
use operator_registry_contro.Validation.RelayInfoService.{
  RelayInfoStore, AddressUpdate, upsert_many, get_by_fingerprints_paginated,
  update_any1_address_batch,
}
use operator_registry_contro.World.{
  World, Error, service_error, GeoIp, FingerprintGeoLocation, Call, as_error, ask, read,
}
use operator_registry_contro.GeoIp.{GeoIpService, lookup, cache_check}

-- What the details server says of a relay (`RelayInfo` of src/validation/interfaces/8_3/relay-info.ts), as
-- far as it is read. A number that the record keeps is a whole number.
pub record DetailsRelay : Type 0 where
  pub fingerprint : Text
  pub nickname : Text
  pub contact : Option Text
  pub consensus_weight : ℕ
  pub running : Bool
  pub measured : Option Bool
  pub consensus_weight_fraction : Option Double
  pub version : Option Text
  pub version_status : Option Text
  pub bandwidth_rate : Option ℕ
  pub bandwidth_burst : Option ℕ
  pub observed_bandwidth : Option ℕ
  pub advertised_bandwidth : Option ℕ
  pub effective_family : Option (List Text)
  pub hardware_info : Option RelayHardwareInfo

pub record DetailsResponse : Type 0 where
  pub status : ℕ
  pub last_modified : Option Text
  pub relays : List DetailsRelay

pub record ValidationService (E : Type 0) : Type 0 where
  -- the request, if `ONIONOO_DETAILS_URI` is set
  pub get_details : Option (Call E DetailsResponse)
  pub banned_fingerprints : List Text
  pub store : RelayInfoStore E
  pub geo_ip : GeoIpService E
  pub ethers : Ethers
  pub lat_lng_to_cell : Double → Double → Result Text Text
  -- `Date.parse`, none for NaN
  pub parse_date : Text → Option ℕ
  pub to_utc_string : Text → Text
  pub zero_double : Double

-- `value ?? fallback`
abbrev pub or_else {ℓ} : {A : Type ℓ} → Option A → A → A
or_else (some a) b = a
or_else none b = b

abbrev snoc_first : ℕ → List Text → List Text
snoc_first c [] = (c ∷ []) ∷ []
snoc_first c (t ∷ ts) = (c ∷ t) ∷ ts

-- `s.split(',')`
unfoldable pub split_commas : Text → List Text
split_commas [] = [] ∷ []
split_commas (c ∷ s) = if eqb c b',' then [] ∷ split_commas s else snoc_first c (split_commas s)

-- `bannedFingerprints` of the constructor
pub banned_of : Option Text → List Text
unfolding split_commas
banned_of config = split_commas (or_else config [])

-- `relay.contact !== undefined && relay.contact.toLowerCase().includes(this.atorKeyPattern)`
unfoldable pub has_pattern : Option Text → Bool
has_pattern none = false
has_pattern (some contact) = is_some (index_of ator_key_pattern (lower contact))

unfoldable pub is_matching : List Text → DetailsRelay → Bool
unfolding has_pattern
is_matching banned relay = not (includes banned relay.fingerprint) && has_pattern relay.contact

module _ {E : Type 0} (x : ValidationService E) where
  -- `requestStamp > Date.parse(lastMod)`, false for NaN
  is_past : ℕ → Option ℕ → Bool
  is_past stamp none = false
  is_past stamp (some t) = ltb t stamp

  seen_at : ℕ → Option Text → Text
  unfolding is_past
  seen_at stamp none = []
  seen_at stamp (some last_mod) =
      if is_past stamp (x.parse_date last_mod) then x.to_utc_string last_mod else []

  -- The relays and `lastSeen`, of a response or of a request that failed.
  received : ℕ → Text → Result Text DetailsResponse → List DetailsRelay × Text
  unfolding seen_at
  received stamp last_seen (err m) = ([], last_seen)
  received stamp last_seen (ok r) =
      if eqb r.status 200 then (r.relays, seen_at stamp r.last_modified) else ([], last_seen)

  fetched_relays :
      Text → Option (Call E DetailsResponse) → Action (World E) Error (List DetailsRelay × Text)
  unfolding received
  fetched_relays last_seen none = pure ([], last_seen)
  fetched_relays last_seen (some get) = do
    stamp ← read x.store.now
    (λ w. let (r, e) = get w.env in (ok (received stamp last_seen r), record w { env = e }))

  -- `lastSeen` is passed in and returned.
  unfoldable pub fetch_new_relays : Text → Action (World E) Error (List DetailsRelay × Text)
  unfolding fetched_relays
  fetch_new_relays last_seen = fetched_relays last_seen x.get_details

  geo_hex : Option FingerprintGeoLocation → Result Error Text
  geo_hex none = ok (text "?")
  geo_hex (some l) = as_error (x.lat_lng_to_cell l.coordinates.0 l.coordinates.1)

  unfoldable pub fingerprint_to_geo_hex : GeoIp → Text → Result Error Text
  unfolding geo_hex
  fingerprint_to_geo_hex g fingerprint = geo_hex (lookup g fingerprint)

  pub relay_data : DetailsRelay → Text → RelayDataDto
  relay_data info primary_address_hex = record {
    any1_address = [];
    fingerprint = info.fingerprint;
    contact = or_else info.contact [];
    consensus_weight = info.consensus_weight;
    primary_address_hex = primary_address_hex;
    nickname = info.nickname;
    running = info.running;
    consensus_measured = or_else info.measured false;
    consensus_weight_fraction = or_else info.consensus_weight_fraction x.zero_double;
    version = or_else info.version (text "?");
    version_status = or_else info.version_status [];
    bandwidth_rate = or_else info.bandwidth_rate 0;
    bandwidth_burst = or_else info.bandwidth_burst 0;
    observed_bandwidth = or_else info.observed_bandwidth 0;
    advertised_bandwidth = or_else info.advertised_bandwidth 0;
    effective_family = or_else info.effective_family [];
    hardware_info = info.hardware_info;
  }

  -- `matchingRelays.map(...)`
  pub relay_data_list : GeoIp → List DetailsRelay → Result Error (List RelayDataDto)
  unfolding relay_data
  relay_data_list g [] = ok []
  relay_data_list g (info ∷ infos) = elim (fingerprint_to_geo_hex g info.fingerprint) [
    | err e ↦ err e
    | ok hex ↦ elim (relay_data_list g infos) [
      | err e ↦ err e
      | ok more ↦ ok (relay_data info hex ∷ more)
    ]
  ]

  -- what follows the check of the cache
  pub store_matching : List DetailsRelay → Action (World E) Error (List Text)
  unfolding relay_data_list
  store_matching relays = do
    relay_data ←
        (λ w. (relay_data_list w.geo_ip (filter (is_matching x.banned_fingerprints) relays), w))
    upsert_many x.store (filter (λ (relay : RelayDataDto). not (is_empty relay.contact)) relay_data)

  unfoldable pub filter_relays : List DetailsRelay → Action (World E) Error (List Text)
  unfolding store_matching
  filter_relays relays = do cache_check x.geo_ip; store_matching relays

  -- `updates` of a batch: the relays whose contact has a key
  unfoldable pub address_updates : List RelayDataDto → List AddressUpdate
  address_updates [] = []
  address_updates (relay ∷ relays) =
      let ator_address = extract_ator_key x.ethers (some relay.contact) in
      if is_empty ator_address
      then address_updates relays
      else record { fingerprint = relay.fingerprint; any1_address = ator_address }
        ∷ address_updates relays

  -- the callback of `validateRelays`, on `validatedFingerprints`
  pub validate_batch : List RelayDataDto → ℕ → ℕ → List Text → Action (World E) Error (List Text)
  unfolding address_updates
  validate_batch batch index total validated = do
    update_any1_address_batch x.store (address_updates batch)
    pure (validated ++ map (λ (u : AddressUpdate). u.fingerprint) (address_updates batch))

  unfoldable pub validate_relays : List Text → Action (World E) Error ValidationDataDto
  unfolding validate_batch
  validate_relays fingerprints = do
    validated ← get_by_fingerprints_paginated x.store fingerprints 1000 validate_batch []
    validated_at ← read x.store.now
    pure (record { validated_at = validated_at; fingerprints = validated })
