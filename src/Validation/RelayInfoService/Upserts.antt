-- ===== src/Validation/RelayInfoService/Upserts.antt =====
-- What `upsertMany` leaves in the collection.
use operator_registry_contro.Prelude.{
  ◌≡◌, refl, sym, ap, ◌∙◌, Bool, false, ◌||◌, Option, none, some, List, [], ◌∷◌, ◌++◌, map, Text,
  ◌==◌, ==_iff, includes, Result, ok, err, Ensures, Ensures-continue, Ensures-map, arith, ℕ,
}
use operator_registry_contro.Validation.Dto.{RelayDataDto, RelayInfo}
use operator_registry_contro.World.{World, as_error}
use operator_registry_contro.World.Collection.{Updated, changed, inserted, missed}
use operator_registry_contro.Validation.RelayInfoService.Written.{
  HasWritten, Updated-HasWritten, HasWritten-cons,
}
use operator_registry_contro.Validation.RelayInfoService.{
  RelayInfoStore, set_fields, new_document, has_fingerprint, upsert_one, upsert_from, upsert_many,
}

-- Some stored relay has the fingerprint.
unfoldable pub is_stored : Text → List RelayInfo → Bool
is_stored fingerprint [] = false
is_stored fingerprint (d ∷ ds) = d.fingerprint == fingerprint || is_stored fingerprint ds

abbrev pub fingerprints_of : List RelayDataDto → List Text
fingerprints_of relays = map (λ (r : RelayDataDto). r.fingerprint) relays

is_stored-append :
    (f : Text) (xs ys : List RelayInfo)
    → is_stored f (xs ++ ys) ≡ (is_stored f xs || is_stored f ys)
unfolding is_stored
is_stored-append f [] ys = refl
is_stored-append f (x ∷ xs) ys = ground (arith, is_stored-append f xs ys)

or_again : (a b c : Bool) → (a || (b || c)) ≡ ((a || (b || c)) || b)
or_again a b c = ground arith

or_false : (a b : Bool) → (a || (b || false)) ≡ (a || b)
or_false a b = ground arith

or_again_false : (a b : Bool) → (a || b) ≡ (a || (b || false))
or_again_false a b = ground arith

or_none : (a : Bool) → (a || false) ≡ a
or_none a = ground arith

or_shift : (a b c : Bool) → ((a || (b || false)) || c) ≡ (a || (b || c))
or_shift a b c = ground arith

name_of : Option RelayInfo → Text
name_of none = []
name_of (some d) = d.fingerprint

upserted :
    (relay : RelayDataDto) (now : ℕ) (ds ds' : List RelayInfo) (f : Text)
    → Updated
        (has_fingerprint relay.fingerprint)
        (set_fields relay now)
        (some (new_document relay now))
        ds
        ds'
    → is_stored f ds' ≡ (is_stored f ds || relay.fingerprint == f)
unfolding is_stored set_fields new_document name_of
upserted relay now ds ds' f (changed before d after e p e') =
    let same = (==_iff d.fingerprint relay.fingerprint).0 p in
    rw (e, e')
      (rw
        (
          is_stored-append f before (d ∷ after),
          is_stored-append f before (set_fields relay now d ∷ after),
        )
        (rw (sym same) (or_again (is_stored f before) (d.fingerprint == f) (is_stored f after))))
upserted relay now ds ds' f (inserted d none_yet e e') =
    let same : d.fingerprint ≡ relay.fingerprint =
      ap (λ (o : Option RelayInfo). name_of o) (sym e) in
    rw (e', is_stored-append f ds (d ∷ []), same)
      (or_false (is_stored f ds) (relay.fingerprint == f))
upserted relay now ds ds' f (missed none_yet e e') = cc

-- What a loop that returned has added.
pub record HasUpserted {E : Type 0} (fingerprints : List Text) (w : World E) (w' : World E)
    : Type 0 where
  pub stored :
      (f : Text)
      → is_stored f w'.relay_infos ≡ (is_stored f w.relay_infos || includes fingerprints f)

abbrev pub Any : {E : Type 0} → World E → Type 0
Any w = Unit

-- A call that returned has stored the relay.
abbrev pub AddsOne : {E : Type 0} → RelayDataDto → World E → Unit {0} → World E → Type 0
AddsOne relay w _ w' =
    HasUpserted (relay.fingerprint ∷ []) w w' × HasWritten (relay ∷ []) w.relay_infos w'.relay_infos

abbrev pub AddsAll :
    {E : Type 0} → List Text → List RelayDataDto → World E → List Text → World E → Type 0
AddsAll seen relays w fingerprints w' =
    (fingerprints ≡ seen ++ fingerprints_of relays)
    × HasUpserted (fingerprints_of relays) w w'
    × HasWritten relays w.relay_infos w'.relay_infos

answered :
    {E : Type 0} (relay : RelayDataDto) (now : ℕ) (w : World E) (e : E) (ds : List RelayInfo)
    (r : Result Text (Unit {0}))
    → (r ≡ ok tt
        → Updated
            (has_fingerprint relay.fingerprint)
            (set_fields relay now)
            (some (new_document relay now))
            w.relay_infos
            ds)
    → Ensures (AddsOne relay w) Any (as_error r) (record w { env = e; relay_infos = ds })
unfolding includes
answered relay now w e ds (ok tt) h = (
  record {
    stored = λ f.
        upserted relay now w.relay_infos ds f (h refl)
        ∙ or_again_false (is_stored f w.relay_infos) (relay.fingerprint == f);
  },
  Updated-HasWritten relay now w.relay_infos ds (h refl),
)
answered relay now w e ds (err m) h = tt

joined :
    {E : Type 0} (relay : RelayDataDto) (relays : List RelayDataDto) (u v w : World E)
    → HasUpserted (relay.fingerprint ∷ []) u v
    → HasUpserted (fingerprints_of relays) v w
    → HasUpserted (fingerprints_of (relay ∷ relays)) u w
unfolding includes
joined relay relays u v w a b = record {
  stored = λ f.
      b.stored f
      ∙ ap (λ c. c || includes (fingerprints_of relays) f) (a.stored f)
      ∙ or_shift (is_stored f u.relay_infos) (relay.fingerprint == f)
          (includes (fingerprints_of relays) f);
}

append_assoc {ℓ} :
    {A : Type ℓ} (xs : List A) (y : A) (zs : List A) → (xs ++ y ∷ []) ++ zs ≡ xs ++ y ∷ zs
append_assoc [] y zs = refl
append_assoc (x ∷ xs) y zs = ap (◌∷◌ x) (append_assoc xs y zs)

append_nil {ℓ} : {A : Type ℓ} (xs : List A) → xs ++ [] ≡ xs
append_nil [] = refl
append_nil (x ∷ xs) = ap (◌∷◌ x) (append_nil xs)

module _ {E : Type 0} (x : RelayInfoStore E) where
  upsert_one-AddsOne :
      (relay : RelayDataDto) (w : World E)
      → Ensures (AddsOne relay w) Any (upsert_one x relay w).0 (upsert_one x relay w).1
  unfolding upsert_one
  upsert_one-AddsOne relay w =
      let (now, e) = x.now w.env in
      let p = has_fingerprint relay.fingerprint in
      let f = set_fields relay now in
      let fresh = some (new_document relay now) in
      answered relay now w (x.relay_info_model.update_one p f fresh w.relay_infos e).1
        (x.relay_info_model.update_one p f fresh w.relay_infos e).2
        (x.relay_info_model.update_one p f fresh w.relay_infos e).0
        (x.relay_info_model.update_one_lem p f fresh w.relay_infos e)

  upsert_from-AddsAll :
      (relays : List RelayDataDto) (seen : List Text) (w : World E)
      → Ensures
          (AddsAll seen relays w)
          Any
          (upsert_from x seen relays w).0
          (upsert_from x seen relays w).1
  unfolding upsert_from includes
  upsert_from-AddsAll [] seen w = (
    sym (append_nil seen),
    record { stored = λ f. sym (or_none (is_stored f w.relay_infos)) },
    λ f q. refl,
  )
  upsert_from-AddsAll (relay ∷ relays) seen w =
      Ensures-continue (AddsOne relay w) (AddsAll seen (relay ∷ relays) w) Any
        (upsert_one x relay w).0 (λ _. upsert_from x (seen ++ relay.fingerprint ∷ []) relays)
        (upsert_one x relay w).1 (upsert_one-AddsOne relay w)
        λ _ v (a, written).
          Ensures-map (AddsAll (seen ++ relay.fingerprint ∷ []) relays v)
            (AddsAll seen (relay ∷ relays) w) Any
            (upsert_from x (seen ++ relay.fingerprint ∷ []) relays v).0
            (upsert_from x (seen ++ relay.fingerprint ∷ []) relays v).1
            (upsert_from-AddsAll relays (seen ++ relay.fingerprint ∷ []) v)
            λ fps w' (e, b, more). (
              e ∙ append_assoc seen relay.fingerprint (fingerprints_of relays),
              joined relay relays w v w' a b,
              HasWritten-cons relay relays w.relay_infos v.relay_infos w'.relay_infos written more,
            )

  -- If the loop returns, it returns the fingerprints of the relays in their order, and a fingerprint is
  -- stored exactly if it was stored before or is that of one of them. A document with exactly the data of
  -- the last relay with a fingerprint is then stored, and the data stored for a fingerprint that none of
  -- them has are as they were. If a call throws, nothing is said.
  pub upsert_many-AddsAll :
      (relays : List RelayDataDto) (w : World E)
      → Ensures (AddsAll [] relays w) Any (upsert_many x relays w).0 (upsert_many x relays w).1
  unfolding upsert_many
  upsert_many-AddsAll relays w = upsert_from-AddsAll relays [] w
