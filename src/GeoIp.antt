-- ===== src/GeoIp.antt =====
-- src/geo-ip/geo-ip.service.ts: the map from fingerprints to places, fetched again when it is old. The
-- request, with the parsing of the response's `date` header, is a parameter. A time that is not in
-- the past gives a negative age, which is not above the limit: ages are cut off at 0.
pub mod Freshness
use operator_registry_contro.Prelude.{
  ℕ, zero, suc, ◌-◌, Bool, true, false, Option, none, some, List, [], ◌∷◌, Text, ◌==◌, ltb,
  if◌then◌else◌, Result, ok, err, Action, ◌>>=◌, pure,
}
use operator_registry_contro.World.{
  World, Error, Stamp, undefined, nan, at, FingerprintGeoLocation, GeoIp, Call, read,
}

pub record GeoIpResponse : Type 0 where
  pub fingerprints : List (Text × FingerprintGeoLocation)
  -- `new Date(response.headers['date']).getTime()`, none for NaN
  pub date : Option ℕ

pub record GeoIpService (E : Type 0) : Type 0 where
  pub get_fingerprint_map : Call E GeoIpResponse
  pub now : E → ℕ × E
  pub anyone_api_cache_ttl : ℕ

pub stamp_of : Option ℕ → Stamp
stamp_of none = nan
stamp_of (some t) = at t

-- `lastResponseTimestamp && Date.now() - ...getTime()`: nothing comparable for `undefined`, NaN and 0.
unfoldable pub elapsed : Stamp → ℕ → Option ℕ
elapsed undefined now = none
elapsed nan now = none
elapsed (at zero) now = some 0
elapsed (at (suc t)) now = some (now - suc t)

-- `elapsedSinceLastResponse > this.anyoneApiCacheTtl`, false if that is undefined or NaN
unfoldable pub is_stale : Option ℕ → ℕ → Bool
is_stale none ttl = false
is_stale (some age) ttl = ltb ttl age

unfoldable pub find_location :
    Text → List (Text × FingerprintGeoLocation) → Option FingerprintGeoLocation
find_location fingerprint [] = none
find_location fingerprint ((f, location) ∷ locations) =
    if f == fingerprint then some location else find_location fingerprint locations

unfoldable pub lookup : GeoIp → Text → Option FingerprintGeoLocation
unfolding find_location
lookup g fingerprint = find_location fingerprint g.fingerprint_map_data

module _ {E : Type 0} (x : GeoIpService E) where
  -- the assignments of the `try` block; a failed request leaves the fields as they are
  pub fetched : Result Text GeoIpResponse → GeoIp → GeoIp
  unfolding stamp_of
  fetched (ok r) g = record {
    fingerprint_map_data = r.fingerprints;
    last_response_timestamp = stamp_of r.date;
  }
  fetched (err m) g = g

  unfoldable pub fetch_fingerprint_map_data : Action (World E) Error (Unit {0})
  unfolding fetched
  fetch_fingerprint_map_data w =
      let (r, e) = x.get_fingerprint_map w.env in
      (ok tt, record w { env = e; geo_ip = fetched r w.geo_ip })

  pub refresh : Bool → Action (World E) Error (Unit {0})
  unfolding fetch_fingerprint_map_data
  refresh true = fetch_fingerprint_map_data
  refresh false = pure tt

  unfoldable pub cache_check : Action (World E) Error (Unit {0})
  unfolding refresh elapsed is_stale
  cache_check = do
    now ← read x.now
    (λ w.
        refresh (is_stale (elapsed w.geo_ip.last_response_timestamp now) x.anyone_api_cache_ttl) w)
