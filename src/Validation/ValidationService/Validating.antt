-- ===== src/Validation/ValidationService/Validating.antt =====
-- Which relays `validateRelays` returns.
use operator_registry_contro.Prelude.{
  ℕ, ◌+◌, ◌≡◌, refl, sym, ap, ◌∙◌, Bool, true, false, ◌&&◌, ◌||◌, not, some, List, [], ◌∷◌, ◌++◌,
  Text, ◌==◌, ==_iff, is_empty, includes, includes-append, map, count, ltb, Bool-cases, inl, inr,
  if◌then◌else◌, ok, pure, Ensures, Ensures-continue, arith,
}
use operator_registry_contro.Validation.Dto.{RelayDataDto, RelayInfo, ValidationDataDto}
use operator_registry_contro.Validation.AtorKey.{Ethers, extract_ator_key}
use operator_registry_contro.Validation.RelayInfoService.{
  AddressUpdate, to_relay_data_dto, in_fingerprints, update_any1_address_batch,
  get_by_fingerprints_paginated,
}
use operator_registry_contro.Validation.RelayInfoService.Addresses.{
  contact_of, contacts, update_any1_address_batch-keeps,
}
use operator_registry_contro.Validation.RelayInfoService.Finds.{Matches}
use operator_registry_contro.Validation.RelayInfoService.Pages.{get_by_fingerprints_paginated_inv}
use operator_registry_contro.Validation.RelayInfoService.Upserts.{Any}
use operator_registry_contro.World.{World}
use operator_registry_contro.Validation.ValidationService.{
  ValidationService, address_updates, validate_batch, validate_relays,
}

guard_step :
    (i k e inc : Bool) (n m : ℕ)
    → (e ≡ true → i ≡ inc)
    → n ≡ (if inc then m else 0)
    → (if i && (k && e) then 1 else 0) + n ≡ (if inc then (if k && e then 1 else 0) + m else 0)
guard_step i k true inc n m h g = grind arith
guard_step i k false inc n m h g = grind arith

module _ (ethers : Ethers) where
  abbrev pub has_key : Text → Bool
  has_key contact = not (is_empty (extract_ator_key ethers (some contact)))

  -- A stored relay has the fingerprint, and a key in its contact.
  abbrev pub keyed : Text → Text × Text → Bool
  keyed f (fingerprint, contact) = has_key contact && fingerprint == f

  abbrev pub is_keyed : Text → List (Text × Text) → Bool
  is_keyed f cs = ltb 0 (count (keyed f) cs)

  module _ (f : Text) where
    -- the key test on a relay as it is read
    read_key : RelayDataDto → Bool
    read_key r = has_key r.contact && r.fingerprint == f

    count-guard :
        (ys : List Text) (ds : List RelayInfo)
        → count (λ d. in_fingerprints ys d && keyed f (contact_of d)) ds
          ≡ (if includes ys f then count (keyed f) (contacts ds) else 0)
    count-guard ys [] = elim (Bool-cases (includes ys f)) [ inl e ↦ rw e | inr e ↦ rw e ]
    count-guard ys (d ∷ ds) =
        guard_step (includes ys d.fingerprint) (has_key d.contact) (d.fingerprint == f)
          (includes ys f) (count (λ d. in_fingerprints ys d && keyed f (contact_of d)) ds)
          (count (keyed f) (contacts ds)) (λ e. ap (includes ys) ((==_iff d.fingerprint f).0 e))
          (count-guard ys ds)

    guard-ltb : (b : Bool) (n : ℕ) → ltb 0 (if b then n else 0) ≡ (b && ltb 0 n)
    guard-ltb true n = refl
    guard-ltb false n = refl

update_step :
    (empty same : Bool) (n : ℕ)
    → (same || ltb 0 n) ≡ ltb 0 ((if not false && same then 1 else 0) + n)
update_step empty true n = ground arith
update_step empty false n = ground arith

module _ {E : Type 0} (x : ValidationService E) where
  abbrev updated : List RelayDataDto → List Text
  updated batch = map (λ (u : AddressUpdate). u.fingerprint) (address_updates x batch)

  includes_updates :
      (f : Text) (batch : List RelayDataDto)
      → includes (updated batch) f ≡ ltb 0 (count (read_key x.ethers f) batch)
  unfolding address_updates includes read_key
  includes_updates f [] = refl
  includes_updates f (r ∷ rs) =
      elim (Bool-cases (is_empty (extract_ator_key x.ethers (some r.contact)))) [
        | inl e ↦ rw e (includes_updates f rs ∙ ap (ltb 0) (omega arith))
        | inr e ↦
            rw (e, includes_updates f rs)
              (update_step true (r.fingerprint == f) (count (read_key x.ethers f) rs))
      ]

  -- After some fingerprints were visited: contacts are as they were, and the relays collected are the
  -- visited ones with a stored relay whose contact has a key.
  abbrev pub Validated : World E → List Text → List Text → World E → Type 0
  Validated w₀ visited validated w =
      (contacts w.relay_infos ≡ contacts w₀.relay_infos)
      × ((f : Text)
          → includes validated f
            ≡ (includes visited f && is_keyed x.ethers f (contacts w₀.relay_infos)))

  keyed_batch :
      (w₀ w v : World E) (ys : List Text) (batch : List RelayDataDto) (f : Text)
      → contacts w.relay_infos ≡ contacts w₀.relay_infos
      → Matches ys w batch v
      → includes (updated batch) f
        ≡ (includes ys f && is_keyed x.ethers f (contacts w₀.relay_infos))
  unfolding read_key to_relay_data_dto
  keyed_batch w₀ w v ys batch f same m =
      includes_updates f batch
      ∙ ap (ltb 0) (m.counted (read_key x.ethers f) ∙ count-guard x.ethers f ys w.relay_infos)
      ∙ guard-ltb x.ethers f (includes ys f) (count (keyed x.ethers f) (contacts w.relay_infos))
      ∙ ap (λ c. includes ys f && is_keyed x.ethers f c) same

  and_or : (a b c : Bool) → ((a && c) || (b && c)) ≡ ((a || b) && c)
  and_or a b c = ground arith

  validate_batch-Validated :
      (w₀ : World E) (xs ys : List Text) (batch : List RelayDataDto) (index total : ℕ)
      (l : List Text) (w v : World E)
      → Validated w₀ xs l w
      → Matches ys w batch v
      → Ensures
          (Validated w₀ (xs ++ ys))
          Any
          (validate_batch x batch index total l v).0
          (validate_batch x batch index total l v).1
  unfolding validate_batch
  validate_batch-Validated w₀ xs ys batch index total l w v (same, visited) m =
      let us = address_updates x batch in
      Ensures-continue (λ _ (u : World E). contacts u.relay_infos ≡ contacts v.relay_infos)
        (Validated w₀ (xs ++ ys)) Any (update_any1_address_batch x.store us v).0
        (λ _. pure (l ++ map (λ (u : AddressUpdate). u.fingerprint) us))
        (update_any1_address_batch x.store us v).1 (update_any1_address_batch-keeps x.store us v)
        λ _ u kept. (
          kept ∙ ap contacts m.quiet.relay_infos_eq ∙ same,
          λ f.
              includes-append l (updated batch) f
              ∙ rw (visited f, keyed_batch w₀ w v ys batch f same m)
                  (and_or (includes xs f) (includes ys f)
                    (is_keyed x.ethers f (contacts w₀.relay_infos)))
              ∙ ap (λ b. b && is_keyed x.ethers f (contacts w₀.relay_infos))
                  (sym (includes-append xs ys f)),
        )

  -- What `validateRelays` returns for the fingerprints.
  abbrev pub IsValidated : World E → List Text → ValidationDataDto → World E → Type 0
  IsValidated w fingerprints result w' = Validated w fingerprints result.fingerprints w'

  -- If validation returns, its fingerprints are those of the given ones for which a relay is stored
  -- whose contact has a key, however the batches split them; contacts and fingerprints of stored relays
  -- are as before, in the same order.
  pub validate_relays-IsValidated :
      (fingerprints : List Text) (w : World E)
      → Ensures
          (IsValidated w fingerprints)
          Any
          (validate_relays x fingerprints w).0
          (validate_relays x fingerprints w).1
  unfolding validate_relays includes
  validate_relays-IsValidated fingerprints w =
      let paginated =
        get_by_fingerprints_paginated x.store fingerprints 1000 (validate_batch x) [] w in
      Ensures-continue (Validated w fingerprints) (IsValidated w fingerprints) Any paginated.0
        (λ validated v. (
          ok (record { validated_at = (x.store.now v.env).0; fingerprints = validated }),
          record v { env = (x.store.now v.env).1 },
        ))
        paginated.1
        (get_by_fingerprints_paginated_inv x.store fingerprints 1000 (validate_batch x)
          (Validated w) Any (validate_batch-Validated w) (λ xs l u v h q. tt) [] w (omega arith)
          (refl, λ f. refl))
        λ validated v h. h
