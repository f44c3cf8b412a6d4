-- ===== src/Validation/Dto.antt =====
-- src/validation/dto/*.ts and src/validation/schemas/relay-info.schema.ts: what the pipeline passes on about
-- a relay, and the document that the database keeps of it.
use operator_registry_contro.Prelude.{ℕ, Bool, Option, List, Text}

-- A JavaScript number that is a fraction: its IEEE 754 bits. The program only adds such numbers.
pub record Double : Type 0 where
  pub bits : ℕ

-- An element of `serNums` or `pubKeys`.
pub record TypedNumber : Type 0 where
  pub type : Option Text
  pub number : Option Text

-- An element of `certs`.
pub record Certificate : Type 0 where
  pub type : Option Text
  pub signature : Option Text
  pub cert : Option Text

pub record RelayHardwareInfo : Type 0 where
  pub id : Option Text
  pub company : Option Text
  pub format : Option Text
  pub wallet : Option Text
  pub fingerprint : Option Text
  pub nftid : Option Text
  pub build : Option Text
  pub flags : Option Text
  pub ser_nums : Option (List TypedNumber)
  pub pub_keys : Option (List TypedNumber)
  pub certs : Option (List Certificate)

pub record RelayDataDto : Type 0 where
  pub any1_address : Text
  pub fingerprint : Text
  pub contact : Text
  pub primary_address_hex : Text
  pub nickname : Text
  pub running : Bool
  pub consensus_weight : ℕ
  pub consensus_measured : Bool
  pub consensus_weight_fraction : Double
  pub version : Text
  pub version_status : Text
  pub bandwidth_rate : ℕ
  pub bandwidth_burst : ℕ
  pub observed_bandwidth : ℕ
  pub advertised_bandwidth : ℕ
  pub effective_family : List Text
  pub hardware_info : Option RelayHardwareInfo

-- The document of the collection of relays.
pub record RelayInfo : Type 0 where
  pub fingerprint : Text
  pub any1_address : Text
  pub contact : Text
  pub primary_address_hex : Text
  pub nickname : Text
  pub running : Bool
  pub consensus_weight : ℕ
  pub consensus_measured : Bool
  pub consensus_weight_fraction : Double
  pub version : Text
  pub version_status : Text
  pub bandwidth_rate : ℕ
  pub bandwidth_burst : ℕ
  pub observed_bandwidth : ℕ
  pub advertised_bandwidth : ℕ
  pub effective_family : List Text
  pub hardware_info : Option RelayHardwareInfo
  pub created_at : ℕ

pub record ValidationDataDto : Type 0 where
  pub validated_at : ℕ
  pub fingerprints : List Text
