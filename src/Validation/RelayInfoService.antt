-- ===== src/Validation/RelayInfoService.antt =====
-- src/validation/relay-info.service.ts: the transient collection of relays. Each method logs and throws
-- again what the database throws, so it is the call itself.
pub mod Written
pub mod Upserts
pub mod Addresses
pub mod Finds
pub mod Pages
use operator_registry_contro.Prelude.{
  ℕ, zero, suc, ◌+◌, ◌-◌, ◌/◌, Bool, true, Option, none, some, List, [], ◌∷◌, ◌++◌, map, Text, ◌==◌,
  includes, length, take, drop, ltb, if◌then◌else◌, Result, ok, err, Action, ◌>>=◌, ◌>>◌, pure,
}
use operator_registry_contro.Validation.Dto.{RelayDataDto, RelayInfo}
use operator_registry_contro.World.{World, Error, as_error, ask, read}
use operator_registry_contro.World.Collection.{Collection}

-- `relayInfoModel` and `Date.now`
pub record RelayInfoStore (E : Type 0) : Type 0 where
  pub relay_info_model : Collection E RelayInfo
  pub now : E → ℕ × E

-- The `$set` of an upsert.
pub set_fields : RelayDataDto → ℕ → RelayInfo → RelayInfo
set_fields relay now d = record d {
  any1_address = relay.any1_address;
  contact = relay.contact;
  primary_address_hex = relay.primary_address_hex;
  nickname = relay.nickname;
  running = relay.running;
  consensus_weight = relay.consensus_weight;
  consensus_measured = relay.consensus_measured;
  consensus_weight_fraction = relay.consensus_weight_fraction;
  version = relay.version;
  version_status = relay.version_status;
  bandwidth_rate = relay.bandwidth_rate;
  bandwidth_burst = relay.bandwidth_burst;
  observed_bandwidth = relay.observed_bandwidth;
  advertised_bandwidth = relay.advertised_bandwidth;
  effective_family = relay.effective_family;
  hardware_info = relay.hardware_info;
  created_at = now;
}

-- The document that an upsert inserts: the filter's field, and those of `$set`.
pub new_document : RelayDataDto → ℕ → RelayInfo
new_document relay now = record {
  fingerprint = relay.fingerprint;
  any1_address = relay.any1_address;
  contact = relay.contact;
  primary_address_hex = relay.primary_address_hex;
  nickname = relay.nickname;
  running = relay.running;
  consensus_weight = relay.consensus_weight;
  consensus_measured = relay.consensus_measured;
  consensus_weight_fraction = relay.consensus_weight_fraction;
  version = relay.version;
  version_status = relay.version_status;
  bandwidth_rate = relay.bandwidth_rate;
  bandwidth_burst = relay.bandwidth_burst;
  observed_bandwidth = relay.observed_bandwidth;
  advertised_bandwidth = relay.advertised_bandwidth;
  effective_family = relay.effective_family;
  hardware_info = relay.hardware_info;
  created_at = now;
}

unfoldable pub to_relay_data_dto : RelayInfo → RelayDataDto
to_relay_data_dto d = record {
  fingerprint = d.fingerprint;
  any1_address = d.any1_address;
  contact = d.contact;
  primary_address_hex = d.primary_address_hex;
  nickname = d.nickname;
  running = d.running;
  consensus_weight = d.consensus_weight;
  consensus_measured = d.consensus_measured;
  consensus_weight_fraction = d.consensus_weight_fraction;
  version = d.version;
  version_status = d.version_status;
  bandwidth_rate = d.bandwidth_rate;
  bandwidth_burst = d.bandwidth_burst;
  observed_bandwidth = d.observed_bandwidth;
  advertised_bandwidth = d.advertised_bandwidth;
  effective_family = d.effective_family;
  hardware_info = d.hardware_info;
}

-- `{ fingerprint }` and `{ fingerprint: { $in: fingerprints } }`
abbrev pub has_fingerprint : Text → RelayInfo → Bool
has_fingerprint fingerprint d = d.fingerprint == fingerprint

abbrev pub in_fingerprints : List Text → RelayInfo → Bool
in_fingerprints fingerprints d = includes fingerprints d.fingerprint

pub set_address : Text → RelayInfo → RelayInfo
set_address any1_address d = record d { any1_address = any1_address }

-- `{ fingerprint, any1_address }`
pub record AddressUpdate : Type 0 where
  pub fingerprint : Text
  pub any1_address : Text

pub bulk_op : AddressUpdate → (RelayInfo → Bool) × (RelayInfo → RelayInfo)
unfolding set_address
bulk_op u = (has_fingerprint u.fingerprint, set_address u.any1_address)

-- `fingerprints.slice(i, j)`
abbrev pub slice : List Text → ℕ → ℕ → List Text
slice fingerprints i j = take (j - i) (drop i fingerprints)

-- `Math.ceil(n / size)`
pub ceil_div : ℕ → ℕ → ℕ
ceil_div n size = (n + size - 1) / size

module _ {E : Type 0} (x : RelayInfoStore E) where
  abbrev pub write_relays :
      {A : Type 0}
      → (List RelayInfo → E → Result Text A × E × List RelayInfo)
      → Action (World E) Error A
  write_relays call w =
      let (r, e, ds) = call w.relay_infos w.env in
      (as_error r, record w { env = e; relay_infos = ds })

  abbrev pub find_relays : (RelayInfo → Bool) → Action (World E) Error (List RelayInfo)
  find_relays p w = ask (x.relay_info_model.find p w.relay_infos) w

  pub upsert_one : RelayDataDto → Action (World E) Error (Unit {0})
  unfolding set_fields new_document
  upsert_one relay = do
    now ← read x.now
    write_relays (
        x.relay_info_model.update_one (has_fingerprint relay.fingerprint) (set_fields relay now)
          (some (new_document relay now)))

  -- the loop of `upsertMany`, which pushes each fingerprint
  pub upsert_from : List Text → List RelayDataDto → Action (World E) Error (List Text)
  upsert_from fingerprints [] = pure fingerprints
  upsert_from fingerprints (relay ∷ relays) = do
    upsert_one relay
    upsert_from (fingerprints ++ relay.fingerprint ∷ []) relays

  unfoldable pub upsert_many : List RelayDataDto → Action (World E) Error (List Text)
  unfolding upsert_from
  upsert_many relays = upsert_from [] relays

  unfoldable pub update_any1_address : Text → Text → Action (World E) Error (Unit {0})
  unfolding set_address
  update_any1_address fingerprint any1_address =
      write_relays (
        x.relay_info_model.update_one (has_fingerprint fingerprint) (set_address any1_address) none)

  unfoldable pub get_by_fingerprints : List Text → Action (World E) Error (List RelayDataDto)
  get_by_fingerprints fingerprints = do
    relays ← find_relays (in_fingerprints fingerprints)
    pure (map to_relay_data_dto relays)

  unfoldable pub update_any1_address_batch : List AddressUpdate → Action (World E) Error (Unit {0})
  unfolding bulk_op
  update_any1_address_batch [] = pure tt
  update_any1_address_batch (u ∷ us) =
      write_relays (x.relay_info_model.bulk_write (map bulk_op (u ∷ us)))

  unfoldable pub delete_by_fingerprints : List Text → Action (World E) Error ℕ
  delete_by_fingerprints fingerprints =
      write_relays (x.relay_info_model.delete_many (in_fingerprints fingerprints))

  unfoldable pub delete_all : Action (World E) Error ℕ
  delete_all = write_relays (x.relay_info_model.delete_many (λ d. true))

  -- `onBatch(batch, batchIndex, totalBatches)`: `L` is what the callback's closure changes.
  module _ {L : Type 0} (fingerprints : List Text) (batch_size : ℕ)
      (on_batch : List RelayDataDto → ℕ → ℕ → L → Action (World E) Error L) where
    pub one_batch : ℕ → L → Action (World E) Error L
    unfolding ceil_div
    one_batch i l = do
      batch ← get_by_fingerprints (slice fingerprints i (i + batch_size))
      on_batch batch (i / batch_size + 1) (ceil_div (length fingerprints) batch_size) l

    -- `for (let i = 0; i < fingerprints.length; i += batchSize)`, on fuel
    pub batches_from : ℕ → ℕ → L → Action (World E) Error L
    unfolding one_batch
    batches_from zero i l = pure l
    batches_from (suc fuel) i l =
        let rest = batches_from fuel (i + batch_size) in
        if ltb i (length fingerprints) then one_batch i l >>= rest else pure l

    -- One round for each fingerprint is enough if the batch size is not 0.
    unfoldable pub get_by_fingerprints_paginated : L → Action (World E) Error L
    unfolding batches_from
    get_by_fingerprints_paginated l = batches_from (length fingerprints) 0 l
