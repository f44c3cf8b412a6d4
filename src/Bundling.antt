-- ===== src/Bundling.antt =====
-- src/bundling/bundling.service.ts. The client of the package turbo-sdk is a parameter.
use operator_registry_contro.Prelude.{
  ℕ, ◌≡◌, refl, ◌&&◌, Option, none, some, List, ◌∷◌, [], Text, text, length, Result, Action, ◌>>=◌,
}
use operator_registry_contro.Util.Config.{given, is_set, is_returned}
use operator_registry_contro.World.{World, Error, Tag, Call, ask}

-- The constructor, where `config` is `config.get`, and `authenticated` makes the signer for the key and the
-- client of turbo-sdk for the signer, the gateway and the node, or throws, as it does for a key that is
-- none. The node is checked in the place of the gateway.
unfoldable pub new_bundling_service :
    {Client : Type 0}
    → (Text → Option Text → Text → Result Text Client)
    → (Text → Option Text)
    → Result Text Client
new_bundling_service authenticated config =
    given (text "BUNDLER_CONTROLLER_KEY") (config (text "BUNDLER_CONTROLLER_KEY")) (λ key.
      given (text "BUNDLER_NODE") (config (text "BUNDLER_NODE")) (λ node.
        given (text "BUNDLER_GATEWAY") (some node) (λ checked.
          given (text "BUNDLER_NETWORK") (config (text "BUNDLER_NETWORK"))
            (λ network. authenticated key (config (text "BUNDLER_GATEWAY")) node))))

-- `signDataItem` of a text, its size and its tags, and `uploadSignedDataItem`, for a client
pub record Turbo (E Client Signed Receipt : Type 0) : Type 0 where
  pub sign_data_item : Client → Text → ℕ → List Tag → Call E Signed
  pub upload_signed_data_item : Client → Signed → Call E Receipt

unfoldable pub upload :
    {E Client Signed Receipt : Type 0}
    → Turbo E Client Signed Receipt
    → Client
    → Text
    → List Tag
    → Action (World E) Error Receipt
upload turbo client payload tags = do
  signed ← ask (turbo.sign_data_item client payload (length payload) tags)
  ask (turbo.upload_signed_data_item client signed)

-- The value of a setting, empty where there is none.
abbrev pub setting : Option Text → Text
setting none = []
setting (some value) = value

checks :
    {Client : Type 0} (authenticated : Text → Option Text → Text → Result Text Client)
    (key node network gateway : Option Text)
    → is_returned (
        given (text "BUNDLER_CONTROLLER_KEY") key (λ key. given (text "BUNDLER_NODE") node (λ node.
          given (text "BUNDLER_GATEWAY") (some node) (λ checked.
            given (text "BUNDLER_NETWORK") network (λ network. authenticated key gateway node)))))
      ≡ (is_set key
          && (is_set node
              && (is_set network
                  && is_returned (authenticated (setting key) gateway (setting node)))))
checks client none address network gateway = refl
checks client (some []) address network gateway = refl
checks client (some (c ∷ key)) none network gateway = refl
checks client (some (c ∷ key)) (some []) network gateway = refl
checks client (some (c ∷ key)) (some (d ∷ node)) none gateway = refl
checks client (some (c ∷ key)) (some (d ∷ node)) (some []) gateway = refl
checks client (some (c ∷ key)) (some (d ∷ node)) (some (f ∷ network)) gateway = refl

-- For every configuration and every way in which signer and client are made, the bundling service is made
-- exactly if the key of the controller, the node and the network are set and the client for the key, the
-- gateway and the node is made without an error: whether the gateway is set is not checked.
pub new_bundling_service-is_set :
    {Client : Type 0} (authenticated : Text → Option Text → Text → Result Text Client)
    (config : Text → Option Text)
    → is_returned (new_bundling_service authenticated config) ≡ (
        is_set (config (text "BUNDLER_CONTROLLER_KEY"))
        && (is_set (config (text "BUNDLER_NODE"))
            && (is_set (config (text "BUNDLER_NETWORK"))
                && is_returned (
                    authenticated
                      (setting (config (text "BUNDLER_CONTROLLER_KEY")))
                      (config (text "BUNDLER_GATEWAY"))
                      (setting (config (text "BUNDLER_NODE")))))))
unfolding new_bundling_service
new_bundling_service-is_set authenticated config =
    checks authenticated (config (text "BUNDLER_CONTROLLER_KEY")) (config (text "BUNDLER_NODE"))
      (config (text "BUNDLER_NETWORK")) (config (text "BUNDLER_GATEWAY"))
