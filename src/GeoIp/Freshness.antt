-- ===== src/GeoIp/Freshness.antt =====
-- When the map is fetched again.
use operator_registry_contro.Prelude.{
  ℕ, zero, suc, ◌+◌, ◌-◌, ◌<◌, ◌≤◌, ◌≡◌, refl, sym, ap, ◌∙◌, ◌⊎◌, inl, inr, Bool, true, false, none,
  Text, Result, ok, err, Ensures, ltb, arith,
}
use operator_registry_contro.World.{World, Stamp, undefined, nan, at, GeoIp}
use operator_registry_contro.GeoIp.{
  GeoIpResponse, GeoIpService, stamp_of, elapsed, is_stale, fetched, fetch_fingerprint_map_data,
  refresh, cache_check,
}

-- `n` checks in a row.
abbrev pub checks : {E : Type 0} → GeoIpService E → ℕ → World E → World E
checks x zero w = w
checks x (suc n) w = checks x n (cache_check x w).1

module _ {E : Type 0} (x : GeoIpService E) where
  -- A response without a usable time: none yet, or one whose date could not be read.
  abbrev pub HasNoTime : Stamp → Type 0
  HasNoTime s = (s ≡ undefined) ⊎ (s ≡ nan)

  elapsed-HasNoTime : (s : Stamp) (now : ℕ) → HasNoTime s → elapsed s now ≡ none
  unfolding elapsed
  elapsed-HasNoTime s now (inl e) = rw e
  elapsed-HasNoTime s now (inr e) = rw e

  cache_check_stuck :
      (w : World E)
      → HasNoTime w.geo_ip.last_response_timestamp
      → (cache_check x w).1.geo_ip ≡ w.geo_ip
  unfolding cache_check
  cache_check_stuck w h = rw (elapsed-HasNoTime w.geo_ip.last_response_timestamp (x.now w.env).0 h)

  -- If the first fetch failed, or its date could not be read, no check ever fetches again: the map
  -- stays as it is.
  pub checks_stuck :
      (n : ℕ) (w : World E)
      → HasNoTime w.geo_ip.last_response_timestamp
      → (checks x n w).geo_ip ≡ w.geo_ip
  checks_stuck zero w h = refl
  checks_stuck (suc n) w h =
      let kept = cache_check_stuck w h in checks_stuck n (cache_check x w).1 (rw kept h) ∙ kept

  within : (now ttl t : ℕ) → ltb ttl (now - suc t) ≡ false → now ≤ ttl + suc t
  within now ttl t h = grind arith

  beyond : (now ttl t : ℕ) → ltb ttl (now - suc t) ≡ true → ttl + suc t < now
  beyond now ttl t h = grind arith

  -- What a due fetch leaves: the response's map and time, or both as they were.
  abbrev pub Refetched : Result Text GeoIpResponse → GeoIp → GeoIp → Type 0
  Refetched (ok r) g g' =
      (g'.fingerprint_map_data ≡ r.fingerprints) × (g'.last_response_timestamp ≡ stamp_of r.date)
  Refetched (err m) g g' = g' ≡ g

  fetched-Refetched : (r : Result Text GeoIpResponse) (g : GeoIp) → Refetched r g (fetched x r g)
  unfolding fetched
  fetched-Refetched (ok r) g = (refl, refl)
  fetched-Refetched (err m) g = refl

  refresh_lem :
      (stale : Bool) (w : World E)
      → ((stale ≡ false) × ((refresh x stale w).1 ≡ w))
        ⊎ ((stale ≡ true)
            × Refetched (x.get_fingerprint_map w.env).0 w.geo_ip (refresh x stale w).1.geo_ip)
  unfolding refresh fetch_fingerprint_map_data
  refresh_lem false w = inl (refl, refl)
  refresh_lem true w = inr (refl, fetched-Refetched (x.get_fingerprint_map w.env).0 w.geo_ip)

  -- With a time, the check does nothing but read the clock if the map is at most as old as the limit,
  -- and otherwise asks the server once: the response replaces the map and its time, and a failed
  -- request keeps both.
  pub cache_check_lem :
      (w : World E) (t : ℕ)
      → w.geo_ip.last_response_timestamp ≡ at (suc t)
      → (((x.now w.env).0 ≤ x.anyone_api_cache_ttl + suc t)
          × ((cache_check x w).1 ≡ record w { env = (x.now w.env).1 }))
        ⊎ ((x.anyone_api_cache_ttl + suc t < (x.now w.env).0)
            × Refetched
                (x.get_fingerprint_map (x.now w.env).1).0
                w.geo_ip
                (cache_check x w).1.geo_ip)
  unfolding cache_check is_stale elapsed
  cache_check_lem w t e =
      elim (refresh_lem
        (is_stale (elapsed w.geo_ip.last_response_timestamp (x.now w.env).0) x.anyone_api_cache_ttl)
        (record w { env = (x.now w.env).1 })) [
          | inl (fresh, kept) ↦ inl (
            within (x.now w.env).0 x.anyone_api_cache_ttl t (
                ap (λ s. is_stale (elapsed s (x.now w.env).0) x.anyone_api_cache_ttl) (sym e)
                ∙ fresh),
            kept,
          )
          | inr (stale, asked) ↦ inr (
            beyond (x.now w.env).0 x.anyone_api_cache_ttl t (
                ap (λ s. is_stale (elapsed s (x.now w.env).0) x.anyone_api_cache_ttl) (sym e)
                ∙ stale),
            asked,
          )
        ]

  refresh-keeps :
      (stale : Bool) (w : World E)
      → Ensures
          (λ _ v. v.relay_infos ≡ w.relay_infos)
          (λ v. Unit)
          (refresh x stale w).0
          (refresh x stale w).1
  unfolding refresh fetch_fingerprint_map_data
  refresh-keeps true w = refl
  refresh-keeps false w = refl

  -- A check keeps the stored relays.
  pub cache_check-keeps :
      (w : World E)
      → Ensures
          (λ _ v. v.relay_infos ≡ w.relay_infos)
          (λ v. Unit)
          (cache_check x w).0
          (cache_check x w).1
  unfolding cache_check
  cache_check-keeps w =
      refresh-keeps
        (is_stale (elapsed w.geo_ip.last_response_timestamp (x.now w.env).0) x.anyone_api_cache_ttl)
        (record w { env = (x.now w.env).1 })
