-- ===== src/Examples/Services.antt =====
-- Services whose outside is a clock that each call moves: the collections are in memory, every address
-- is valid, and the process of the registry knows no relay yet.
use operator_registry_contro.Prelude.{
  ℕ, suc, ◌+◌, ◌≡◌, refl, ap, ◌≤◌, true, none, some, List, [], ◌∷◌, text, All, flatten, length,
  arith, ok, err,
}
use operator_registry_contro.Validation.Dto.{Double, RelayDataDto, RelayInfo}
use operator_registry_contro.Validation.RelayInfoService.{RelayInfoStore}
use operator_registry_contro.Validation.AtorKey.{Ethers}
use operator_registry_contro.Validation.ValidationService.{ValidationService, DetailsRelay}
use operator_registry_contro.GeoIp.{GeoIpService}
use operator_registry_contro.Verification.Dto.{EnrichedVerificationResult, already_verified}
use operator_registry_contro.Verification.HardwareService.{HardwareService}
use operator_registry_contro.Verification.Stats.{Fractions}
use operator_registry_contro.Verification.Verify.{VerificationService}
use operator_registry_contro.Verification.Persist.{PersistenceService}
use operator_registry_contro.OperatorRegistry.{
  OperatorRegistry, OperatorRegistryState, array, RelayWithHardwareProof,
}
use operator_registry_contro.Tasks.Site.{Site, Broker}
use operator_registry_contro.Util.SendAosMessage.{Ao}
use operator_registry_contro.World.{World, undefined, IsQuiet-refl}
use operator_registry_contro.World.Collection.{memory}

abbrev pub clock : ℕ → ℕ × ℕ
clock n = (n, n + 1)

abbrev pub store : RelayInfoStore ℕ
store = record { relay_info_model = memory; now = clock }

abbrev pub ethers : Ethers
ethers = record { is_address = λ t. true; get_address = λ t. t }

abbrev pub geo_ip : GeoIpService ℕ
geo_ip = record {
  get_fingerprint_map = λ n. (ok (record { fingerprints = []; date = some n }), n + 1);
  now = clock;
  anyone_api_cache_ttl = 10;
}

abbrev pub hardware : HardwareService ℕ
hardware = record {
  get_verified_hardware_by_atec_serial = λ serial w. (ok none, w);
  is_hardware_proof_valid = λ relay w. (ok true, w);
  get_verified_hardware_by_atec_serial-IsQuiet = λ serial w. IsQuiet-refl w;
  is_hardware_proof_valid-IsQuiet = λ relay w. IsQuiet-refl w;
}

abbrev pub ao : Ao ℕ
ao = record {
  message = λ m n. (ok (text "message"), n + 1);
  result = λ id process n. (ok (record { error = none; messages = some [] }), n + 1);
  dryrun = λ m n. (ok (record { error = none; messages = some (text "state" ∷ []) }), n + 1);
}

abbrev pub raw_state : OperatorRegistryState
raw_state =
    (text "ClaimableFingerprintsToOperatorAddresses", array [])
    ∷ (text "VerifiedFingerprintsToOperatorAddresses", array [])
    ∷ []

abbrev pub registry : OperatorRegistry ℕ
registry = record {
  ao = ao;
  operator_registry_process_id = text "process";
  has_signer = true;
  parse = λ t. ok raw_state;
  stringify = λ certificates. text "certificates";
}

unfoldable pub singles : List RelayWithHardwareProof → List (List RelayWithHardwareProof)
singles [] = []
singles (r ∷ rs) = (r ∷ []) ∷ singles rs

pub flatten-singles : (rs : List RelayWithHardwareProof) → flatten (singles rs) ≡ rs
unfolding singles
flatten-singles [] = refl
flatten-singles (r ∷ rs) = ap (◌∷◌ r) (flatten-singles rs)

pub length-singles :
    (rs : List RelayWithHardwareProof) (n : ℕ)
    → All (λ (c : List RelayWithHardwareProof). length c ≤ suc n) (singles rs)
unfolding singles
length-singles [] n = tt
length-singles (r ∷ rs) n = (omega arith, length-singles rs n)

abbrev pub verification_service : VerificationService ℕ
verification_service = record {
  is_live = some (text "true");
  hardware = hardware;
  registry = registry;
  store = store;
  chunk = λ rs n. singles rs;
  flatten-chunk = λ rs n. flatten-singles rs;
  length-chunk = λ rs n. length-singles rs n;
}

abbrev pub nought : Double
nought = record { bits = 0 }

abbrev pub fractions : Fractions
fractions = record { add = λ a b. record { bits = a.bits + b.bits }; nought = nought }

-- Uploads of statistics always fail.
abbrev pub persistence_service : PersistenceService ℕ
persistence_service = record {
  is_live = some (text "true");
  store = store;
  verification_data_model = memory;
  fractions = fractions;
  upload = λ u n. (err (text "no funds"), n + 1);
  stamp_text = λ n. text "now";
  stringify_stats = λ s. text "stats";
  stringify_hex_map = λ cells. text "cells";
}

abbrev pub validation_service : ValidationService ℕ
validation_service = record {
  get_details = none;
  banned_fingerprints = text "BAD" ∷ [];
  store = store;
  geo_ip = geo_ip;
  ethers = ethers;
  lat_lng_to_cell = λ lat lng. ok (text "cell");
  parse_date = λ t. none;
  to_utc_string = λ t. t;
  zero_double = nought;
}

abbrev pub broker : Broker ℕ
broker = record {
  get_waiting_count = λ n. (ok 0, n + 1);
  get_delayed_count = λ n. (ok 0, n + 1);
  get_active_count = λ n. (ok 0, n + 1);
  add = λ job n. (ok tt, n + 1);
  obliterate = λ queue n. (ok tt, n + 1);
}

abbrev pub relay : RelayDataDto
relay = record {
  any1_address = text "0x1";
  fingerprint = text "A";
  contact = text "@anon: 0x0000000000000000000000000000000000000001";
  primary_address_hex = text "cell";
  nickname = text "a";
  running = true;
  consensus_weight = 7;
  consensus_measured = true;
  consensus_weight_fraction = nought;
  version = text "1";
  version_status = text "recommended";
  bandwidth_rate = 1;
  bandwidth_burst = 1;
  observed_bandwidth = 3;
  advertised_bandwidth = 1;
  effective_family = [];
  hardware_info = none;
}

abbrev pub details : DetailsRelay
details = record {
  fingerprint = text "A";
  nickname = text "a";
  contact = some (text "@anon: 0x0000000000000000000000000000000000000001");
  consensus_weight = 7;
  running = true;
  measured = none;
  consensus_weight_fraction = none;
  version = none;
  version_status = none;
  bandwidth_rate = none;
  bandwidth_burst = none;
  observed_bandwidth = none;
  advertised_bandwidth = none;
  effective_family = none;
  hardware_info = none;
}

abbrev pub document : RelayInfo
document = record {
  fingerprint = text "A";
  any1_address = text "0x1";
  contact = text "@anon: 0x0000000000000000000000000000000000000001";
  primary_address_hex = text "cell";
  nickname = text "a";
  running = true;
  consensus_weight = 7;
  consensus_measured = true;
  consensus_weight_fraction = nought;
  version = text "1";
  version_status = text "recommended";
  bandwidth_rate = 1;
  bandwidth_burst = 1;
  observed_bandwidth = 3;
  advertised_bandwidth = 1;
  effective_family = [];
  hardware_info = none;
  created_at = 0;
}

abbrev pub enriched : EnrichedVerificationResult
enriched = record { result = already_verified; fingerprint = text "A"; relay = relay }

-- One relay is stored.
abbrev pub world : World ℕ
world = record {
  env = 0;
  relay_infos = document ∷ [];
  verified_hardware = [];
  hardware_failures = [];
  known_devices = [];
  verifications = [];
  sent = [];
  slept = [];
  uploads = [];
  geo_ip = record { fingerprint_map_data = []; last_response_timestamp = undefined };
}

abbrev pub empty_world : World ℕ
empty_world = record world { relay_infos = [] }

abbrev pub site : Site ℕ
site = record { world = world; requests = []; last_seen = [] }
