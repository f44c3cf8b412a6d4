-- ===== src/Examples/Validating.antt =====
-- The theorems on the validation at one relay.
use operator_registry_contro.Prelude.{
  ℕ, ◌≤◌, ◌<◌, ◌≡◌, refl, ◌⊎◌, inl, some, [], ◌∷◌, Text, text, Ensures, starts_with, index_of,
  lower,
}
use operator_registry_contro.Examples.Services.{
  store, ethers, geo_ip, validation_service, relay, details, world, empty_world,
}
use operator_registry_contro.GeoIp.{cache_check}
use operator_registry_contro.GeoIp.Freshness.{Refetched, checks, cache_check_lem, checks_stuck}
use operator_registry_contro.Validation.AtorKey.{replace_first, extract_ator_key}
use operator_registry_contro.Validation.AtorKey.Sound.{IsAtorKey, extract_ator_key-IsAtorKey}
use operator_registry_contro.Validation.AtorKey.Written.{contact, extract_ator_key-written}
use operator_registry_contro.Validation.RelayInfoService.{upsert_many}
use operator_registry_contro.Validation.RelayInfoService.Upserts.{AddsAll, Any, upsert_many-AddsAll}
use operator_registry_contro.Validation.ValidationService.{filter_relays, validate_relays}
use operator_registry_contro.Validation.ValidationService.Filtering.{
  Filtered, filter_relays-Filtered,
}
use operator_registry_contro.Validation.ValidationService.Validating.{
  IsValidated, validate_relays-IsValidated,
}
use operator_registry_contro.World.{World, at}

abbrev key : Text
key = text "0x0000000000000000000000000000000000000001"

abbrev dated_world : World ℕ
dated_world = record world {
  env = 50;
  geo_ip = record { fingerprint_map_data = []; last_response_timestamp = at 5 };
}

extract_ator_key-IsAtorKey_example :
    (extract_ator_key ethers (some (text "@anon: 0x0000000000000000000000000000000000000001")) ≡ [])
    ⊎ IsAtorKey ethers
        (text "@anon: 0x0000000000000000000000000000000000000001")
        (extract_ator_key ethers (some (text "@anon: 0x0000000000000000000000000000000000000001")))
extract_ator_key-IsAtorKey_example =
    extract_ator_key-IsAtorKey ethers (text "@anon: 0x0000000000000000000000000000000000000001")

-- With capitals and with another '0x' before the pattern.
extract_ator_key-written_example :
    extract_ator_key ethers
      (some (contact ethers (text "0xab me ") (text "@ANON:") (text " key ") key (text " me")))
    ≡ key
unfolding replace_first starts_with index_of lower
extract_ator_key-written_example =
    extract_ator_key-written ethers (text "0xab me ") (text "@ANON:") (text " key ") key
      (text " me") refl refl refl refl refl refl

upsert_many-AddsAll_example :
    Ensures
      (AddsAll [] (relay ∷ []) empty_world)
      Any
      (upsert_many store (relay ∷ []) empty_world).0
      (upsert_many store (relay ∷ []) empty_world).1
upsert_many-AddsAll_example = upsert_many-AddsAll store (relay ∷ []) empty_world

filter_relays-Filtered_example :
    Ensures
      (Filtered validation_service (details ∷ []) empty_world)
      Any
      (filter_relays validation_service (details ∷ []) empty_world).0
      (filter_relays validation_service (details ∷ []) empty_world).1
filter_relays-Filtered_example =
    filter_relays-Filtered validation_service (details ∷ []) empty_world

validate_relays-IsValidated_example :
    Ensures
      (IsValidated validation_service world (text "A" ∷ []))
      Any
      (validate_relays validation_service (text "A" ∷ []) world).0
      (validate_relays validation_service (text "A" ∷ []) world).1
validate_relays-IsValidated_example =
    validate_relays-IsValidated validation_service (text "A" ∷ []) world

checks_stuck_example : (checks geo_ip 5 world).geo_ip ≡ world.geo_ip
checks_stuck_example = checks_stuck geo_ip 5 world (inl refl)

cache_check_lem_example :
    ((50 ≤ 15) × ((cache_check geo_ip dated_world).1 ≡ record dated_world { env = 51 }))
    ⊎ ((15 < 50)
        × Refetched geo_ip
            (geo_ip.get_fingerprint_map 51).0
            dated_world.geo_ip
            (cache_check geo_ip dated_world).1.geo_ip)
cache_check_lem_example = cache_check_lem geo_ip dated_world 4 refl
