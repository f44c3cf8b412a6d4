-- ===== src/Validation/RelayInfoService/Finds.antt =====
-- What is read from the stored relays.
use operator_registry_contro.Prelude.{
  ◌≡◌, refl, ◌∙◌, Bool, ◌&&◌, List, map, Text, count, count-map, Result, ok, err, Ensures, continue,
  pure,
}
use operator_registry_contro.Validation.Dto.{RelayDataDto, RelayInfo}
use operator_registry_contro.World.{World, Error, as_error, IsQuiet}
use operator_registry_contro.Validation.RelayInfoService.{
  RelayInfoStore, to_relay_data_dto, in_fingerprints, get_by_fingerprints,
}

-- The relays returned are the stored ones with one of the fingerprints, as often; nothing is
-- written.
pub record Matches {E : Type 0} (fingerprints : List Text) (w : World E)
    (relays : List RelayDataDto) (w' : World E) : Type 0 where
  pub quiet : IsQuiet w w'
  pub counted :
      (q : RelayDataDto → Bool)
      → count q relays
        ≡ count (λ d. in_fingerprints fingerprints d && q (to_relay_data_dto d)) w.relay_infos

module _ {E : Type 0} (x : RelayInfoStore E) (fingerprints : List Text) (w : World E) where
  answered :
      (e : E) (r : Result Text (List RelayInfo))
      → ((rs : List RelayInfo)
          → r ≡ ok rs
          → (q : RelayInfo → Bool)
          → count q rs ≡ count (λ d. in_fingerprints fingerprints d && q d) w.relay_infos)
      → Ensures
          (Matches fingerprints w)
          (IsQuiet w)
          (continue (as_error r) (λ rs. pure (map to_relay_data_dto rs)) (record w { env = e })).0
          (continue {X = Error}
            (as_error r)
            (λ rs. pure {X = Error} (map to_relay_data_dto rs))
            (record w { env = e })).1
  answered e (ok rs) found = record {
    quiet = record {
      sent_eq = refl;
      relay_infos_eq = refl;
      uploads_eq = refl;
      verifications_eq = refl;
      known_devices_eq = refl;
    };
    counted = λ q. count-map q to_relay_data_dto rs ∙ found rs refl (λ d. q (to_relay_data_dto d));
  }
  answered e (err m) found = record {
    sent_eq = refl;
    relay_infos_eq = refl;
    uploads_eq = refl;
    verifications_eq = refl;
    known_devices_eq = refl;
  }

  -- If the reading returns, its relays are the stored ones with one of the fingerprints, each as often as
  -- it is stored; it writes nothing, also if it throws.
  pub get_by_fingerprints-Matches :
      Ensures
        (Matches fingerprints w)
        (IsQuiet w)
        (get_by_fingerprints x fingerprints w).0
        (get_by_fingerprints x fingerprints w).1
  unfolding get_by_fingerprints
  get_by_fingerprints-Matches =
      answered (x.relay_info_model.find (in_fingerprints fingerprints) w.relay_infos w.env).1
        (x.relay_info_model.find (in_fingerprints fingerprints) w.relay_infos w.env).0
        (x.relay_info_model.find_lem (in_fingerprints fingerprints) w.relay_infos w.env)
