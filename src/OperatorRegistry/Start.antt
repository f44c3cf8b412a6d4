-- ===== src/OperatorRegistry/Start.antt =====
-- The constructor and `onApplicationBootstrap` of src/operator-registry/operator-registry.service.ts. What the
-- packages ethers and arbundles make of a private key is a parameter, which may throw.
use operator_registry_contro.Prelude.{true, false, Option, Text, text, Result, ok, err}
use operator_registry_contro.Util.Config.{given}
use operator_registry_contro.OperatorRegistry.{OperatorRegistry}

module _ {E : Type 0} where
  -- The service, with the key of the controller; `x` has the parameters.
  unfoldable pub new_operator_registry :
      OperatorRegistry E → (Text → Option Text) → Result Text (OperatorRegistry E × Text)
  new_operator_registry x config =
      given (text "OPERATOR_REGISTRY_PROCESS_ID") (config (text "OPERATOR_REGISTRY_PROCESS_ID"))
        (λ process_id.
          given (text "OPERATOR_REGISTRY_CONTROLLER_KEY")
            (config (text "OPERATOR_REGISTRY_CONTROLLER_KEY"))
            (λ key.
              ok (record x { operator_registry_process_id = process_id; has_signer = false }, key)))

  abbrev with_wallet : Result Text Text → OperatorRegistry E → Result Text (OperatorRegistry E)
  with_wallet (ok address) x = ok x
  with_wallet (err message) x = err message

  abbrev with_signer :
      Result Text (Unit {0})
      → Result Text Text
      → OperatorRegistry E
      → Result Text (OperatorRegistry E)
  with_signer (ok u) wallet x = with_wallet wallet (record x { has_signer = true })
  with_signer (err message) wallet x = err message

  -- `signer` is `new EthereumSigner` and what is made of it, `wallet` is `new Wallet` with its address.
  unfoldable pub bootstrap_operator_registry :
      (Text → Result Text (Unit {0}))
      → (Text → Result Text Text)
      → OperatorRegistry E
      → Text
      → Result Text (OperatorRegistry E)
  bootstrap_operator_registry signer wallet x key = with_signer (signer key) (wallet key) x
