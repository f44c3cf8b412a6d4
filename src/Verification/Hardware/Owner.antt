-- ===== src/Verification/Hardware/Owner.antt =====
-- `isOwnerOfRelayupNft` and `validateNftIdForAddressAndDeviceSerial` of
-- src/verification/hardware-verification.service.ts. The contracts of the package ethers are parameters.
use operator_registry_contro.Prelude.{
  ℕ, ◌^◌, ◌≤◌, ◌≡◌, Bool, true, false, Option, none, some, Text, text, ◌==◌, is_empty,
  if◌then◌else◌, Result, ok, err, Action, ◌>>=◌, pure,
}
use operator_registry_contro.Prelude.Numbers.{ℤ, pos, negate, parse_int}
use operator_registry_contro.World.{World, Error}

-- What a contract's call throws: `error.reason`
pub record ContractError : Type 0 where
  pub reason : Option Text

-- `contract.ownerOf(nftId)`
abbrev pub Contract : Type 0 → Type 0
Contract E = ℤ → E → Result ContractError Text × E

pub record NftContracts (E : Type 0) : Type 0 where
  pub relayup_nft_contract : Option (Contract E)
  pub backup_relayup_nft_contract : Option (Contract E)
  -- the double that is nearest to a number, none for infinity
  pub round_to_double : ℕ → Option ℕ
  pub round_to_double_small : (n : ℕ) → n ≤ 2 ^ 53 → round_to_double n ≡ some n

-- `error.reason !== 'ERC721: invalid token ID'` is the other case
abbrev pub is_invalid_token : Option Text → Bool
is_invalid_token none = false
is_invalid_token (some reason) = reason == text "ERC721: invalid token ID"

abbrev pub signed : Bool → ℕ → ℤ
signed true n = negate n
signed false n = pos n

module _ {E : Type 0} (x : NftContracts E) where
  abbrev pub owner_checked :
      Text → Action (World E) Error Bool → Result ContractError Text → Action (World E) Error Bool
  owner_checked address again (ok owner) = pure (address == owner)
  owner_checked address again (err error) =
      if is_invalid_token error.reason then pure false else again

  -- `again` is the retry, or `return false` in a retry.
  abbrev pub ask_owner :
      Text → ℤ → Option (Contract E) → Action (World E) Error Bool → Action (World E) Error Bool
  ask_owner address nft_id none again w = pure false w
  ask_owner address nft_id (some contract) again w =
      let (r, e) = contract nft_id w.env in owner_checked address again r (record w { env = e })

  -- A backup that is `undefined` as an argument becomes the default, which is the first contract.
  abbrev pub backup_or_default : Option (Contract E) → Option (Contract E)
  backup_or_default none = x.relayup_nft_contract
  backup_or_default (some contract) = some contract

  unfoldable pub is_owner_of_relayup_nft : Text → ℤ → Action (World E) Error Bool
  is_owner_of_relayup_nft address nft_id =
      ask_owner address nft_id x.relayup_nft_contract
        (ask_owner address nft_id (backup_or_default x.backup_relayup_nft_contract) (pure false))

  -- `Number.parseInt(nftId)`, where it is an integer
  unfoldable pub parse_nft_id : Text → Option ℤ
  unfolding parse_int
  parse_nft_id nft_id = elim (parse_int nft_id) [
    | none ↦ none
    | some (is_negative, n) ↦ elim (x.round_to_double n) [
      | none ↦ none
      | some m ↦ some (signed is_negative m)
    ]
  ]

  -- the number if its token is owned by the address
  abbrev pub owned : Text → Option ℤ → Action (World E) Error (Option ℤ)
  owned address none = pure none
  owned address (some nft_id) = do
    is_owner ← is_owner_of_relayup_nft address nft_id
    pure (if is_owner then some nft_id else none)

  -- `{ valid: false }` is none.
  unfoldable pub validate_nft_id_for_address_and_device_serial :
      Text → Option Text → Action (World E) Error (Option ℤ)
  validate_nft_id_for_address_and_device_serial address none = pure none
  validate_nft_id_for_address_and_device_serial address (some nft_id) =
      if is_empty nft_id then pure none else owned address (parse_nft_id nft_id)
