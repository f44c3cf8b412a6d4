-- ===== src/Validation/RelayInfoService/Addresses.antt =====
-- Updates of addresses keep the rest of the stored relays.
use operator_registry_contro.Prelude.{
  ◌≡◌, refl, sym, ap, ◌∙◌, none, List, [], ◌∷◌, ◌++◌, Text, map, Result, ok, err, Ensures,
}
use operator_registry_contro.Validation.Dto.{RelayInfo}
use operator_registry_contro.Validation.RelayInfoService.{
  RelayInfoStore, AddressUpdate, bulk_op, set_address, has_fingerprint, update_any1_address_batch,
}
use operator_registry_contro.World.{World, as_error}
use operator_registry_contro.World.Collection.{
  Updated, changed, inserted, missed, UpdatedAll, done, next,
}

-- What is read of a stored relay.
abbrev pub contact_of : RelayInfo → Text × Text
contact_of d = (d.fingerprint, d.contact)

abbrev pub contacts : List RelayInfo → List (Text × Text)
contacts ds = map contact_of ds

contacts-append : (xs ys : List RelayInfo) → contacts (xs ++ ys) ≡ contacts xs ++ contacts ys
contacts-append [] ys = refl
contacts-append (x ∷ xs) ys = ap (◌∷◌ (contact_of x)) (contacts-append xs ys)

address_keeps :
    (u : AddressUpdate) (ds ds' : List RelayInfo)
    → Updated (has_fingerprint u.fingerprint) (set_address u.any1_address) none ds ds'
    → contacts ds' ≡ contacts ds
unfolding set_address
address_keeps u ds ds' (changed before d after e p e') =
    rw (e, e')
      (contacts-append before (set_address u.any1_address d ∷ after)
        ∙ sym (contacts-append before (d ∷ after)))
address_keeps u ds ds' (inserted d h e e') = cc
address_keeps u ds ds' (missed h e e') = rw e'

addresses_keep :
    (us : List AddressUpdate) (ds ds' : List RelayInfo)
    → UpdatedAll (map bulk_op us) ds ds'
    → contacts ds' ≡ contacts ds
unfolding bulk_op
addresses_keep [] ds ds' (done) = refl
addresses_keep (u ∷ us) ds ds'' (next {ds' = ds'} a b) =
    addresses_keep us ds' ds'' b ∙ address_keeps u ds ds' a

module _ {E : Type 0} (x : RelayInfoStore E) where
  answered :
      (us : List AddressUpdate) (w : World E) (e : E) (ds : List RelayInfo)
      (r : Result Text (Unit {0}))
      → (r ≡ ok tt → UpdatedAll (map bulk_op us) w.relay_infos ds)
      → Ensures
          (λ _ (v : World E). contacts v.relay_infos ≡ contacts w.relay_infos)
          (λ v. Unit)
          (as_error r)
          (record w { env = e; relay_infos = ds })
  answered us w e ds (ok tt) h = addresses_keep us w.relay_infos ds (h refl)
  answered us w e ds (err m) h = tt

  pub update_any1_address_batch-keeps :
      (us : List AddressUpdate) (w : World E)
      → Ensures
          (λ _ (v : World E). contacts v.relay_infos ≡ contacts w.relay_infos)
          (λ v. Unit)
          (update_any1_address_batch x us w).0
          (update_any1_address_batch x us w).1
  unfolding update_any1_address_batch
  update_any1_address_batch-keeps [] w = refl
  update_any1_address_batch-keeps (u ∷ us) w =
      let ops = map bulk_op (u ∷ us) in
      let call = x.relay_info_model.bulk_write ops w.relay_infos w.env in
      answered (u ∷ us) w call.1 call.2 call.0
        (x.relay_info_model.bulk_write_lem ops w.relay_infos w.env)
