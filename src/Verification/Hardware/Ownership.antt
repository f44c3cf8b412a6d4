-- ===== src/Verification/Hardware/Ownership.antt =====
-- What `isOwnerOfRelayupNft` of src/verification/hardware-verification.service.ts makes of the answers of
-- the two contracts.
use operator_registry_contro.Prelude.{
  ◌≡◌, ◌⊎◌, refl, ◌∙◌, sym, ap, inl, inr, Bool, false, Option, none, some, Text, ◌==◌, ==_iff,
  Bool-cases, Result, ok, err, Action, pure, Ensures, Ensures-returns,
}
use operator_registry_contro.Prelude.Numbers.{ℤ}
use operator_registry_contro.Verification.Hardware.Owner.{
  ContractError, Contract, NftContracts, is_invalid_token, owner_checked, ask_owner,
  backup_or_default, is_owner_of_relayup_nft,
}
use operator_registry_contro.World.{World, Error}

module _ {E : Type 0} (x : NftContracts E) where
  -- One of the two contracts named the address as the owner.
  pub data IsConfirmed (address : Text) (nft_id : ℤ) : Type 0 where
    by_first :
        (contract : Contract E) (e : E)
        → x.relayup_nft_contract ≡ some contract
        → (contract nft_id e).0 ≡ ok address
        → IsConfirmed address nft_id
    by_backup :
        (contract : Contract E) (e : E)
        → x.backup_relayup_nft_contract ≡ some contract
        → (contract nft_id e).0 ≡ ok address
        → IsConfirmed address nft_id

  -- Only the outside moved, and an answer that is not false has a contract's word.
  abbrev pub Answered : Text → ℤ → World E → Bool → World E → Type 0
  Answered address nft_id w b s =
      ((e : E) × (s ≡ record w { env = e })) × ((b ≡ false) ⊎ IsConfirmed address nft_id)

  -- It returns.
  abbrev pub Answers : Text → ℤ → Action (World E) Error Bool → Type 0
  Answers address nft_id m =
      (w : World E) → Ensures (Answered address nft_id w) (λ s. ⊥) (m w).0 (m w).1

  pure-false-Answers : (address : Text) (nft_id : ℤ) → Answers address nft_id (pure false)
  pure-false-Answers address nft_id w = ((w.env, refl), inl refl)

  owner_checked-Answered :
      (address : Text) (nft_id : ℤ) (again : Action (World E) Error Bool)
      (r : Result ContractError Text) (w : World E) (e : E)
      → (r ≡ ok address → IsConfirmed address nft_id)
      → Answers address nft_id again
      → Ensures
          (Answered address nft_id w)
          (λ s. ⊥)
          (owner_checked x address again r (record w { env = e })).0
          (owner_checked x address again r (record w { env = e })).1
  owner_checked-Answered address nft_id again (ok owner) w e confirm later =
      elim (Bool-cases (address == owner)) [
        | inl same ↦
            ((e, refl), inr (confirm (ap (λ o. ok o) (sym ((==_iff address owner).0 same)))))
        | inr other ↦ ((e, refl), inl other)
      ]
  owner_checked-Answered address nft_id again (err error) w e confirm later =
      elim (Bool-cases (is_invalid_token error.reason)) [
        | inl invalid ↦ rw invalid ((e, refl), inl refl)
        | inr other ↦ rw other (later (record w { env = e }))
      ]

  ask_owner-Answers :
      (address : Text) (nft_id : ℤ) (contract : Option (Contract E))
      (again : Action (World E) Error Bool)
      → ((c : Contract E) (e : E)
          → contract ≡ some c
          → (c nft_id e).0 ≡ ok address
          → IsConfirmed address nft_id)
      → Answers address nft_id again
      → Answers address nft_id (ask_owner x address nft_id contract again)
  ask_owner-Answers address nft_id none again confirm later w = ((w.env, refl), inl refl)
  ask_owner-Answers address nft_id (some contract) again confirm later w =
      owner_checked-Answered address nft_id again (contract nft_id w.env).0 w
        (contract nft_id w.env).1 (confirm contract w.env refl) later

  backup_or_default-confirms :
      (address : Text) (nft_id : ℤ) (backup : Option (Contract E)) (c : Contract E) (e : E)
      → x.backup_relayup_nft_contract ≡ backup
      → backup_or_default x backup ≡ some c
      → (c nft_id e).0 ≡ ok address
      → IsConfirmed address nft_id
  backup_or_default-confirms address nft_id none c e given h named = by_first c e h named
  backup_or_default-confirms address nft_id (some backup) c e given h named =
      by_backup c e (given ∙ h) named

  pub is_owner_of_relayup_nft-Answers :
      (address : Text) (nft_id : ℤ)
      → Answers address nft_id (is_owner_of_relayup_nft x address nft_id)
  unfolding is_owner_of_relayup_nft
  is_owner_of_relayup_nft-Answers address nft_id =
      ask_owner-Answers address nft_id x.relayup_nft_contract
        (ask_owner x address nft_id (backup_or_default x x.backup_relayup_nft_contract)
          (pure false))
        (λ c e h named. by_first c e h named)
        (ask_owner-Answers address nft_id (backup_or_default x x.backup_relayup_nft_contract)
          (pure false)
          (λ c e h named.
            backup_or_default-confirms address nft_id x.backup_relayup_nft_contract c e refl h
              named)
          (pure-false-Answers address nft_id))

  -- For every address, number of a token and state, the check of the owner returns, whatever the two
  -- contracts answer or throw, and changes nothing of the program's own state; if it returns anything
  -- but false, then one of the two contracts named that very address as the owner of that token.
  pub is_owner_of_relayup_nft-returns :
      (address : Text) (nft_id : ℤ) (w : World E)
      → (b : Bool) × ((is_owner_of_relayup_nft x address nft_id w).0 ≡ ok b)
        × ((e : E) × ((is_owner_of_relayup_nft x address nft_id w).1 ≡ record w { env = e }))
        × ((b ≡ false) ⊎ IsConfirmed address nft_id)
  is_owner_of_relayup_nft-returns address nft_id w =
      let (b, returned, (moved, verdict)) =
        Ensures-returns (Answered address nft_id w) (λ s. ⊥)
          (is_owner_of_relayup_nft x address nft_id w).0
          (is_owner_of_relayup_nft x address nft_id w).1 (λ s h. h)
          (is_owner_of_relayup_nft-Answers address nft_id w) in
      (b, returned, moved, verdict)
