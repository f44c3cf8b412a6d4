-- ===== src/Vault.antt =====
-- src/vault/vault.service.ts. The HTTP client of the package axios is a parameter.
use operator_registry_contro.Prelude.{
  Bool, not, Option, none, some, List, ◌++◌, Text, text, split, filter, eqb, Result, ok, err,
  Action,
}
use operator_registry_contro.World.{World, Error}

-- src/vault/dto/vault-read-issuer-response.ts
pub record VaultReadIssuerResponse : Type 0 where
  pub ca_chain : List Text
  pub certificate : Text
  pub crl_distribution_points : List Text
  pub issuer_id : Text
  pub issuer_name : Text
  pub issuing_certificates : List Text
  pub key_id : Text
  pub leaf_not_after_behavior : Text
  pub manual_chain : Option Text
  pub ocsp_servers : List Text
  pub revocation_signature_algorithm : Text
  pub revoked : Bool
  pub usage : Text

pub record VaultService (E : Type 0) : Type 0 where
  pub vault_token : Option Text
  pub vault_token_period : Text
  pub vault_token_policies : List Text
  -- `axiosRef.get(path, { headers })`, with the token of its headers: `data.data` of the answer
  pub get : Text → Option Text → E → Result Text (Option VaultReadIssuerResponse) × E

abbrev or_default : Text → Option Text → Text
or_default default none = default
or_default default (some value) = value

-- The constructor: what `configService.get` finds, and the client.
unfoldable pub vault_service :
    {E : Type 0}
    → (Text → Option Text)
    → (Text → Option Text → E → Result Text (Option VaultReadIssuerResponse) × E)
    → VaultService E
unfolding split
vault_service config get = record {
  vault_token = config (text "VAULT_TOKEN");
  vault_token_period = or_default (text "4h") (config (text "VAULT_TOKEN_PERIOD"));
  vault_token_policies =
      split b',' (or_default (text "pki-hardware-reader") (config (text "VAULT_TOKEN_POLICIES")));
  get = get;
}

-- `/v1/pki_hardware/issuer/${ski.replace(/:/g, '')}`
unfoldable pub issuer_path : Text → Text
issuer_path ski = text "/v1/pki_hardware/issuer/" ++ filter (λ c. not (eqb c b':')) ski

-- An answer, or `null` in the place of an error.
abbrev pub caught_issuer :
    Result Text (Option VaultReadIssuerResponse) → Option VaultReadIssuerResponse
caught_issuer (ok issuer) = issuer
caught_issuer (err message) = none

unfoldable pub get_issuer_by_ski :
    {E : Type 0} → VaultService E → Text → Action (World E) Error (Option VaultReadIssuerResponse)
unfolding issuer_path
get_issuer_by_ski x ski w =
    let (r, e) = x.get (issuer_path ski) x.vault_token w.env in
    (ok (caught_issuer r), record w { env = e })
