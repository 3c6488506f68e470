-- ===== src/Networks/Tests.antt =====
-- Examples for the networks.
use neon_tests.Prelude.{◌≡◌, refl, [], ◌∷◌, some}
use neon_tests.Prelude.Text.{Text, codes}
use neon_tests.Prelude.Dict.{Dict}
use neon_tests.Py.{ok}
use neon_tests.Networks.{
  string, object, Fields, nil, cons, variable, init, resolve_ips, get_network_param,
}
use neon_tests.Networks.Urls.{init-devnet}

abbrev env : Dict Text
env =
    (codes "DEVNET_FAUCET_URL", codes "http://faucet")
    ∷ (codes "DEVNET_SOLANA_URL", codes "http://<solana_ip>")
    ∷ (codes "SOLANA_IP", codes "10.0.0.1")
    ∷ []

abbrev file : Fields
file =
    cons (codes "devnet") (object (cons (codes "solana_url") (string (codes "http://old")) nil)) nil

abbrev networks : Fields
networks =
    cons (codes "devnet")
      (object (
        cons (codes "solana_url") (string (codes "http://<solana_ip>"))
          (cons (codes "faucet_url") (string (codes "http://faucet")) nil)))
      nil

read : init env file (codes "devnet") ≡ ok networks
unfolding init
read = refl

init-devnet_example :
    (faucet solana : Text) × (variable (codes "DEVNET_FAUCET_URL") env ≡ some faucet)
    × (variable (codes "DEVNET_SOLANA_URL") env ≡ some solana)
    × (get_network_param env networks (codes "devnet") (codes "faucet_url" ∷ [])
        ≡ ok (string (resolve_ips env faucet)))
    × (get_network_param env networks (codes "devnet") (codes "solana_url" ∷ [])
        ≡ ok (string (resolve_ips env solana)))
init-devnet_example = init-devnet env file networks (codes "devnet") refl read
