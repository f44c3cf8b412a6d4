-- ===== src/Verification/Claimable/Loop.antt =====
-- The loop of `getRelaysToAddAsClaimable` of src/verification/verification.service.ts over a batch keeps the
-- account and the tally, and puts only admissible relays among those to add.
use operator_registry_contro.Prelude.{
  ◌≡◌, refl, Bool, true, false, Option, none, some, List, [], ◌∷◌, ◌++◌, Text, text, includes, All,
  All-append, Bool-cases, inl, inr, arith, Result, ok, err, Ensures, Ensures-continue, Action,
  continue, pure, if◌then◌else◌, subst,
}
use mathlib.Core.List.{append_assoc, append-nil}
use operator_registry_contro.Validation.Dto.{RelayDataDto, RelayHardwareInfo}
use operator_registry_contro.Verification.Dto.{
  RelayVerificationResult, hardware_proof_failed, failed, already_registered, already_verified,
  VerifiedHardware,
}
use operator_registry_contro.Verification.HardwareService.{HardwareService}
use operator_registry_contro.OperatorRegistry.{Property}
use operator_registry_contro.World.{World, Error, IsQuiet, IsQuiet-trans}
use operator_registry_contro.Verification.Claimable.{
  ClaimableRelaysResult, number_of_type, truthy_at, push_result, push_relay, is_taken, prove,
  check_hardware, with_hardware, by_hardware, classify, classify_batch,
}
use operator_registry_contro.Verification.Claimable.Reasons.{
  Examined, asked, asked-IsQuiet, is_taken-IsTaken, is_taken-free, IsAdmissible, IsDeserved,
  IsDeserved-Deserves, Account, given_result, put_to_add,
}
use operator_registry_contro.Verification.Claimable.Verdicts.{
  IsTallied, is_new_relay, has_dummy_address, push_result-IsTallied, push_relay-IsTallied,
}

module _ {E : Type 0} (hardware : HardwareService E) (claimable verified : List Text)
    (table : Option Property) where
  module _ (start : World E) where
    pub record IsSorted (seen : List RelayDataDto) (l : ClaimableRelaysResult) (w : World E)
        : Type 0 where
      pub quiet : IsQuiet start w
      pub account :
          Account hardware claimable verified table start seen l.results
            l.relays_to_add_as_claimable
      pub tallied : (q : Text → Bool) → IsTallied claimable verified q seen l
      pub admissible :
          All (IsAdmissible hardware claimable verified table start) l.relays_to_add_as_claimable

    module _ {seen : List RelayDataDto} {l : ClaimableRelaysResult} {w : World E}
        (relay : RelayDataDto) (s : IsSorted seen l w) where
      push_result-IsSorted :
          (result : RelayVerificationResult) (w' : World E)
          → IsQuiet start w'
          → IsDeserved hardware claimable verified table start relay result
          → IsSorted (seen ++ relay ∷ []) (push_result relay result l) w'
      push_result-IsSorted result w' k d = record {
        quiet = k;
        account = given_result relay result d s.account;
        tallied = λ q.
            push_result-IsTallied claimable verified q relay (s.tallied q) result
              (IsDeserved-Deserves hardware claimable verified table start relay result d);
        admissible = s.admissible;
      }

      push_relay-IsSorted :
          (proof : Option Bool) (w' : World E)
          → IsQuiet start w'
          → IsAdmissible hardware claimable verified table start
              (record { relay = relay; is_hardware_proof_valid = proof })
          → IsSorted (seen ++ relay ∷ []) (push_relay relay proof l) w'
      push_relay-IsSorted proof w' k a = record {
        quiet = k;
        account =
            put_to_add (record { relay = relay; is_hardware_proof_valid = proof }) a s.account;
        tallied = λ q. push_relay-IsTallied claimable verified q relay (s.tallied q) proof a.is_new;
        admissible =
            All-append (IsAdmissible hardware claimable verified table start)
              l.relays_to_add_as_claimable _ s.admissible (a, tt);
      }

      abbrev Sorts : Action (World E) Error ClaimableRelaysResult → World E → Type 0
      Sorts m v = Ensures (IsSorted (seen ++ relay ∷ [])) (IsQuiet start) (m v).0 (m v).1

      abbrev Examines : Type 0
      Examines = Examined hardware claimable verified table start relay

      -- what `prove` pushes once the answer about the proof is there
      pushed :
          (c : Examines) (r : Result Error Bool) (v : World E)
          → IsQuiet start v
          → is_new_relay claimable verified relay ≡ true
          → is_taken claimable verified relay c.existing ≡ false
          → (hardware.is_hardware_proof_valid relay
              (asked hardware claimable verified table start relay c)).0
            ≡ r
          → Sorts
              (continue r (λ is_valid. pure (
                if is_valid
                then push_relay relay (some true) l
                else push_result relay hardware_proof_failed l)))
              v
      pushed c (ok true) v k new free valid = push_relay-IsSorted (some true) v k (record {
        is_new = new;
        proof = inr (
            inr (
              refl,
              record {
                examined = c;
                not_taken = is_taken-free hardware claimable verified table relay c.existing free;
                valid = valid;
              },
            ));
      })
      pushed c (ok false) v k new free valid =
          push_result-IsSorted hardware_proof_failed v k
            (new, record { examined = c; reason = inr valid })
      pushed c (err e) v k new free valid = k

      prove-IsSorted :
          (c : Examines) (taken : Bool)
          → is_taken claimable verified relay c.existing ≡ taken
          → is_new_relay claimable verified relay ≡ true
          → Sorts
              (prove hardware claimable verified table relay l taken)
              (asked hardware claimable verified table start relay c)
      unfolding prove
      prove-IsSorted c true e new =
          push_result-IsSorted hardware_proof_failed
            (asked hardware claimable verified table start relay c)
            (asked-IsQuiet hardware claimable verified table start relay c)
            (
              new,
              record {
                examined = c;
                reason =
                    inl (is_taken-IsTaken hardware claimable verified table relay c.existing e);
              },
            )
      prove-IsSorted c false e new =
          let v = asked hardware claimable verified table start relay c in
          pushed c (hardware.is_hardware_proof_valid relay v).0
            (hardware.is_hardware_proof_valid relay v).1
            (IsQuiet-trans (asked-IsQuiet hardware claimable verified table start relay c)
              (hardware.is_hardware_proof_valid-IsQuiet relay v))
            new e refl

      check_hardware-IsSorted :
          (info : RelayHardwareInfo) (t : Property) (v : World E)
          → table ≡ some t
          → truthy_at relay.fingerprint t ≡ false
          → IsQuiet start v
          → is_new_relay claimable verified relay ≡ true
          → relay.hardware_info ≡ some info
          → Sorts (check_hardware hardware claimable verified table relay info l) v
      unfolding check_hardware
      check_hardware-IsSorted info t v listed unknown k new has =
          let serial = number_of_type (text "ATEC") info.ser_nums in
          found (hardware.get_verified_hardware_by_atec_serial serial v).0 refl
        where
          found :
              (r : Result Error (Option VerifiedHardware))
              → (hardware.get_verified_hardware_by_atec_serial
                  (number_of_type (text "ATEC") info.ser_nums)
                  v).0
                ≡ r
              → Sorts
                  (continue r (λ existing.
                    prove hardware claimable verified table relay l
                      (is_taken claimable verified relay existing)))
                  (hardware.get_verified_hardware_by_atec_serial
                    (number_of_type (text "ATEC") info.ser_nums)
                    v).1
          found (ok existing) e =
              prove-IsSorted
                (record {
                  info = info;
                  has_info = has;
                  listed = t;
                  table_eq = listed;
                  unknown = unknown;
                  before = v;
                  begun = k;
                  existing = existing;
                  found = e;
                })
                (is_taken claimable verified relay existing) refl new
          found (err error) e = IsQuiet-trans k (
              hardware.get_verified_hardware_by_atec_serial-IsQuiet
                (number_of_type (text "ATEC") info.ser_nums) v)

      with_hardware-IsSorted :
          (info : RelayHardwareInfo) (t : Option Property) (v : World E)
          → table ≡ t
          → IsQuiet start v
          → is_new_relay claimable verified relay ≡ true
          → relay.hardware_info ≡ some info
          → Sorts (with_hardware hardware claimable verified table relay info t l) v
      unfolding with_hardware
      with_hardware-IsSorted info none v e k new has = k
      with_hardware-IsSorted info (some t) v e k new has =
          elim (Bool-cases (truthy_at relay.fingerprint t)) [
            | inl known ↦ rw known (
                push_relay-IsSorted none v k
                  (record { is_new = new; proof = inr (inl (refl, (t, e, known))) }))
            | inr unknown ↦ rw unknown (check_hardware-IsSorted info t v e unknown k new has)
          ]

      by_hardware-IsSorted :
          (info : Option RelayHardwareInfo) (v : World E)
          → IsQuiet start v
          → is_new_relay claimable verified relay ≡ true
          → relay.hardware_info ≡ info
          → Sorts (by_hardware hardware claimable verified table relay info l) v
      unfolding by_hardware
      by_hardware-IsSorted none v k new has =
          push_relay-IsSorted none v k (record { is_new = new; proof = inl (refl, has) })
      by_hardware-IsSorted (some info) v k new has =
          with_hardware-IsSorted info table v refl k new has

      pub classify-IsSorted : Sorts (classify hardware claimable verified table relay l) w
      unfolding classify
      classify-IsSorted = elim (Bool-cases (has_dummy_address relay)) [
        | inl dummy ↦ rw dummy (push_result-IsSorted failed w s.quiet dummy)
        | inr real ↦ elim (Bool-cases (includes claimable relay.fingerprint)) [
          | inl listed ↦
              rw (real, listed) (push_result-IsSorted already_registered w s.quiet (ground arith))
          | inr unlisted ↦ elim (Bool-cases (includes verified relay.fingerprint)) [
            | inl done ↦
                rw (real, unlisted, done)
                  (push_result-IsSorted already_verified w s.quiet (ground arith))
            | inr fresh ↦
                rw (real, unlisted, fresh)
                  (by_hardware-IsSorted relay.hardware_info w s.quiet (ground arith) refl)
          ]
        ]
      ]

    pub classify_batch-IsSorted :
        (seen batch : List RelayDataDto) (l : ClaimableRelaysResult) (w : World E)
        → IsSorted seen l w
        → Ensures
            (IsSorted (seen ++ batch))
            (IsQuiet start)
            (classify_batch hardware claimable verified table batch l w).0
            (classify_batch hardware claimable verified table batch l w).1
    unfolding classify_batch
    classify_batch-IsSorted seen [] l w s = rw append-nil s
    classify_batch-IsSorted seen (relay ∷ batch) l w s =
        Ensures-continue (IsSorted (seen ++ relay ∷ [])) (IsSorted (seen ++ relay ∷ batch))
          (IsQuiet start) (classify hardware claimable verified table relay l w).0
          (classify_batch hardware claimable verified table batch)
          (classify hardware claimable verified table relay l w).1 (classify-IsSorted relay s)
          (λ l' w' s'.
            subst
              (λ t.
                Ensures (IsSorted t) (IsQuiet start)
                  (classify_batch hardware claimable verified table batch l' w').0
                  (classify_batch hardware claimable verified table batch l' w').1)
              (append_assoc seen (relay ∷ []) batch)
              (classify_batch-IsSorted (seen ++ relay ∷ []) batch l' w' s'))
