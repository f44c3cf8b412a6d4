-- ===== src/Validation/RelayInfoService/Written.antt =====
-- What an upsert of src/validation/relay-info.service.ts writes into the documents of a fingerprint.
use operator_registry_contro.Prelude.{
  ℕ, ◌<◌, ◌≡◌, refl, sym, ap, ◌∙◌, Bool, true, false, ◌&&◌, Option, none, some, List, [], ◌∷◌, ◌++◌,
  Text, ◌==◌, ==_iff, count, count-append, Bool-cases, inl, inr, if◌then◌else◌, arith,
}
use operator_registry_contro.Validation.Dto.{RelayDataDto, RelayInfo}
use operator_registry_contro.World.Collection.{Updated, changed, inserted, missed}
use operator_registry_contro.Validation.RelayInfoService.{
  set_fields, new_document, to_relay_data_dto, has_fingerprint,
}

-- How many documents have the fingerprint and the data of a relay that `q` picks.
abbrev pub stored_as : Text → (RelayDataDto → Bool) → List RelayInfo → ℕ
stored_as f q ds = count (λ d. d.fingerprint == f && q (to_relay_data_dto d)) ds

-- The last relay of the list with the fingerprint.
abbrev pub latest : Text → List RelayDataDto → Option RelayDataDto
latest f [] = none
latest f (r ∷ rs) = elim (latest f rs) [
  | some later ↦ some later
  | none ↦ if r.fingerprint == f then some r else none
]

-- From `before` to `after` documents of a fingerprint that `q` picks: none was touched if no relay has the
-- fingerprint, and a document with exactly the data of the last relay that has it is there.
abbrev pub IsWritten : (RelayDataDto → Bool) → Option RelayDataDto → ℕ → ℕ → Type 0
IsWritten q none before after = after ≡ before
IsWritten q (some r) before after = q r ≡ true → 0 < after

abbrev pub HasWritten : List RelayDataDto → List RelayInfo → List RelayInfo → Type 0
HasWritten relays ds ds' =
    (f : Text) (q : RelayDataDto → Bool)
    → IsWritten q (latest f relays) (stored_as f q ds) (stored_as f q ds')

data_of_set_fields :
    (relay : RelayDataDto) (now : ℕ) (d : RelayInfo)
    → d.fingerprint ≡ relay.fingerprint
    → to_relay_data_dto (set_fields relay now d) ≡ relay
unfolding to_relay_data_dto set_fields
data_of_set_fields relay now d same = ap (λ t. record relay { fingerprint = t }) same

data_of_new_document :
    (relay : RelayDataDto) (now : ℕ) → to_relay_data_dto (new_document relay now) ≡ relay
unfolding to_relay_data_dto new_document
data_of_new_document relay now = refl

module _ (f : Text) (q : RelayDataDto → Bool) where
  abbrev is_one : RelayInfo → Bool
  is_one d = d.fingerprint == f && q (to_relay_data_dto d)

  has_one :
      (before after : List RelayInfo) (d : RelayInfo)
      → is_one d ≡ true
      → 0 < stored_as f q (before ++ d ∷ after)
  has_one before after d one = rw (count-append is_one before (d ∷ after), one) (omega arith)

  same_count :
      (before after : List RelayInfo) (d d' : RelayInfo)
      → is_one d ≡ false
      → is_one d' ≡ false
      → stored_as f q (before ++ d' ∷ after) ≡ stored_as f q (before ++ d ∷ after)
  same_count before after d d' other other' =
      rw
        (
          count-append is_one before (d ∷ after),
          count-append is_one before (d' ∷ after),
          other,
          other',
        )
        refl

  one_more :
      (ds : List RelayInfo) (d : RelayInfo)
      → is_one d ≡ false
      → stored_as f q (ds ++ d ∷ []) ≡ stored_as f q ds
  one_more ds d other = rw (count-append is_one ds (d ∷ []), other) (omega arith)

  module _ (relay : RelayDataDto) where
    is_one_of_data :
        (d : RelayInfo)
        → to_relay_data_dto d ≡ relay
        → d.fingerprint ≡ relay.fingerprint
        → relay.fingerprint == f ≡ true
        → q relay ≡ true
        → is_one d ≡ true
    is_one_of_data d matches same its picked = rw (matches, same, its, picked) refl

    other_one :
        (d : RelayInfo)
        → d.fingerprint ≡ relay.fingerprint
        → relay.fingerprint == f ≡ false
        → is_one d ≡ false
    other_one d same its = rw (same, its) refl

    module _ (now : ℕ) (ds ds' : List RelayInfo)
        (u : Updated
          (has_fingerprint relay.fingerprint)
          (set_fields relay now)
          (some (new_document relay now))
          ds
          ds') where
      its_own : relay.fingerprint == f ≡ true → q relay ≡ true → 0 < stored_as f q ds'
      unfolding set_fields new_document
      its_own its picked = elim u [
        | changed before d after e p e' ↦
            let same = (==_iff d.fingerprint relay.fingerprint).0 p in
            rw e' (
              has_one before after (set_fields relay now d) (
                is_one_of_data (set_fields relay now d) (data_of_set_fields relay now d same) same
                  its picked))
        | inserted d none_yet e e' ↦
            let is_new : new_document relay now ≡ d = cc in
            rw (e', sym is_new)
              (has_one ds [] (new_document relay now) (
                is_one_of_data (new_document relay now) (data_of_new_document relay now) refl its
                  picked))
        | missed none_yet e e' ↦ cc
      ]

      others : relay.fingerprint == f ≡ false → stored_as f q ds' ≡ stored_as f q ds
      unfolding set_fields new_document
      others its = elim u [
        | changed before d after e p e' ↦
            let same = (==_iff d.fingerprint relay.fingerprint).0 p in
            rw (e, e')
              (same_count before after d (set_fields relay now d) (other_one d same its)
                (other_one (set_fields relay now d) same its))
        | inserted d none_yet e e' ↦
            let is_new : new_document relay now ≡ d = cc in
            rw (e', sym is_new)
              (one_more ds (new_document relay now) (other_one (new_document relay now) refl its))
        | missed none_yet e e' ↦ cc
      ]

      step : IsWritten q (latest f (relay ∷ [])) (stored_as f q ds) (stored_as f q ds')
      step = elim (Bool-cases (relay.fingerprint == f)) [
        | inl its ↦ rw its (λ picked. its_own its picked)
        | inr other ↦ rw other (others other)
      ]

pub Updated-HasWritten :
    (relay : RelayDataDto) (now : ℕ) (ds ds' : List RelayInfo)
    → Updated
        (has_fingerprint relay.fingerprint)
        (set_fields relay now)
        (some (new_document relay now))
        ds
        ds'
    → HasWritten (relay ∷ []) ds ds'
Updated-HasWritten relay now ds ds' u f q = step f q relay now ds ds' u

-- One relay and then the others.
pub HasWritten-cons :
    (relay : RelayDataDto) (relays : List RelayDataDto) (ds ds' ds'' : List RelayInfo)
    → HasWritten (relay ∷ []) ds ds'
    → HasWritten relays ds' ds''
    → HasWritten (relay ∷ relays) ds ds''
HasWritten-cons relay relays ds ds' ds'' first rest f q =
    go (latest f relays) (rest f q) (relay.fingerprint == f) (first f q)
  where
    go :
        (later : Option RelayDataDto)
        → IsWritten q later (stored_as f q ds') (stored_as f q ds'')
        → (its : Bool)
        → IsWritten q (if its then some relay else none) (stored_as f q ds) (stored_as f q ds')
        → IsWritten q
            (elim later [ some later ↦ some later | none ↦ if its then some relay else none ])
            (stored_as f q ds)
            (stored_as f q ds'')
    go (some later) b its a = b
    go none b true a = λ picked. rw b (a picked)
    go none b false a = b ∙ a
