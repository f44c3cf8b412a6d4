-- ===== src/Verification/Hardware/Contracts.antt =====
-- The constructor and `onApplicationBootstrap` of src/verification/hardware-verification.service.ts, with the
-- providers of src/evm-provider/evm-provider.service.ts. `new Contract(...)` of the package ethers is a parameter.
use operator_registry_contro.Prelude.{Option, some, Text, text, Result, ok}
use operator_registry_contro.Util.Config.{given}
use operator_registry_contro.EvmProvider.{
  EvmProviderService, get_current_mainnet_json_rpc_provider, get_backup_mainnet_json_rpc_provider,
}
use operator_registry_contro.Verification.Hardware.Owner.{Contract, NftContracts}

-- `this.relayupNftContractAddress`
unfoldable pub relayup_nft_contract_address : (Text → Option Text) → Result Text Text
relayup_nft_contract_address config =
    given (text "RELAY_UP_NFT_CONTRACT_ADDRESS") (config (text "RELAY_UP_NFT_CONTRACT_ADDRESS"))
      (λ address. ok address)

-- The two contracts, once there are providers.
unfoldable pub connect_contracts :
    {E P : Type 0}
    → (Text → Option P → Contract E)
    → Text
    → EvmProviderService P
    → NftContracts E
    → NftContracts E
connect_contracts contract address evm_provider_service x = record x {
  relayup_nft_contract =
      some (contract address (get_current_mainnet_json_rpc_provider evm_provider_service));
  backup_relayup_nft_contract =
      some (contract address (get_backup_mainnet_json_rpc_provider evm_provider_service));
}
