-- ===== src/EvmProvider.antt =====
-- src/evm-provider/evm-provider.service.ts, and the part of src/verification/hardware-verification.service.ts
-- that makes its two contracts. The classes of the package ethers are parameters.
use operator_registry_contro.Prelude.{ℕ, Option, none, some, Text, text, Result, ok}
use operator_registry_contro.Util.Config.{given}

-- `P` is the type of providers; there is none before the bootstrap.
pub record EvmProviderService (P : Type 0) : Type 0 where
  pub primary_json_rpc : Text
  pub secondary_json_rpc : Text
  pub primary_mainnet_json_rpc_provider : Option P
  pub secondary_mainnet_json_rpc_provider : Option P

module _ {P : Type 0} where
  unfoldable pub new_evm_provider_service :
      (Text → Option Text) → Result Text (EvmProviderService P)
  new_evm_provider_service config =
      given (text "EVM_MAINNET_PRIMARY_JSON_RPC") (config (text "EVM_MAINNET_PRIMARY_JSON_RPC"))
        (λ primary.
          given (text "EVM_MAINNET_SECONDARY_JSON_RPC")
            (config (text "EVM_MAINNET_SECONDARY_JSON_RPC"))
            (λ secondary. ok (record {
              primary_json_rpc = primary;
              secondary_json_rpc = secondary;
              primary_mainnet_json_rpc_provider = none;
              secondary_mainnet_json_rpc_provider = none;
            })))

  -- `onApplicationBootstrap`, where `provider` is `new ethers.JsonRpcProvider`
  unfoldable pub on_application_bootstrap :
      (Text → ℕ → P) → EvmProviderService P → EvmProviderService P
  on_application_bootstrap provider s = record s {
    primary_mainnet_json_rpc_provider = some (provider s.primary_json_rpc 1);
    secondary_mainnet_json_rpc_provider = some (provider s.secondary_json_rpc 1);
  }

  abbrev pub get_current_mainnet_json_rpc_provider : EvmProviderService P → Option P
  get_current_mainnet_json_rpc_provider s = s.primary_mainnet_json_rpc_provider

  abbrev pub get_backup_mainnet_json_rpc_provider : EvmProviderService P → Option P
  get_backup_mainnet_json_rpc_provider s = s.secondary_mainnet_json_rpc_provider
