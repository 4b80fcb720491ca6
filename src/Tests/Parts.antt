-- ===== src/Tests/Parts.antt =====
-- The functions without effects, and the client.
use mathlib.Core.List.{append-nil}
use mathlib.Core.List.Permᴰ.{swap}
use authentik_operator.Prelude.{
  ◌*◌, ◌<>◌, ◌≡◌, ◌≢◌, refl, eq_iff, none, some, List, [], ◌∷◌, if◌then◌else◌, arith, is_empty,
}
use authentik_operator.Prelude.Dict.{lookup}
use authentik_operator.Errors.{
  ok, err, err_token_expired, Error, out_of_rounds, wrapf, quoted, num, bytes,
}
use authentik_operator.Certs.{
  Certificate, parse_pem, parse_certs, or_else_try, pem_loop, take_block,
}
use authentik_operator.Certs.Laws.{IsFound, parse_certs_lem}
use authentik_operator.Certs.Blocks.{Shrinks, certs_of, pem_of, parse_pem-Blocks}
use authentik_operator.Hash.{compute_secret_hash}
use authentik_operator.Hash.Laws.{compute_secret_hash-perm, hash_collision}
use authentik_operator.Profiles.{SigningCert}
use authentik_operator.Profiles.Url.{root_url_of}
use authentik_operator.Profiles.Url.Laws.{root_url_of_lem}
use authentik_operator.Authentik.{
  get_oauth2_provider_by_slug, get_application, authorized, is_unauthorized, limited, second,
}
use authentik_operator.Authentik.Wait.{wait_for_ready}
use authentik_operator.Authentik.{create_api_token, view_token_key, check_created}
use authentik_operator.Authentik.Creation.{Created, create_api_token-Created}
use authentik_operator.Authentik.Ready.{Paced, waits, wait_for_ready-ends}
use authentik_operator.Authentik.Expired.{Rejected, get_oauth2_provider_by_slug-Rejected}
use authentik_operator.Tests.Fixtures.{
  env_with-Foreign, test_certs, test_client, byte_block, env_with, with_token,
}

compute_secret_hash-perm_example :
    compute_secret_hash test_certs.sha256 (("a", "1") ∷ ("b", "2") ∷ [])
    ≡ compute_secret_hash test_certs.sha256 (("b", "2") ∷ ("a", "1") ∷ [])
unfolding lookup
compute_secret_hash-perm_example =
    compute_secret_hash-perm test_certs.sha256 {m = ("a", "1") ∷ ("b", "2") ∷ []}
      {n = ("b", "2") ∷ ("a", "1") ∷ []} (swap refl refl) (refl, (refl, tt))

hash_collision_example :
    compute_secret_hash test_certs.sha256 (("clientId", "x") ∷ ("scopes", "openid") ∷ [])
    ≡ compute_secret_hash test_certs.sha256
        (("clientId", "x" <> ("\n" <> ("scopes" <> ("=" <> "openid")))) ∷ [])
hash_collision_example =
    hash_collision test_certs.sha256 "clientId" "x" "scopes" "openid"
      (ground (arith, eq_iff "clientId" "scopes")) refl

abbrev test_cert : SigningCert
test_cert = record { certificate_pem = "PEM"; fingerprint_sha256 = "AB:CD" }

root_url_of_lem_example :
    (root_url_of ("https" <> ("://" <> ("demo.example.org" <> ("/" <> "callback"))))
      ≡ "https" <> ("://" <> ("demo.example.org" <> "/")))
    × (root_url_of ("https" <> ("://" <> "demo.example.org"))
        ≡ "https" <> ("://" <> ("demo.example.org" <> "/")))
root_url_of_lem_example =
    root_url_of_lem "https" "demo.example.org" (ground arith) (ground arith) "callback"

decode_byte-Shrinks : Shrinks test_certs
decode_byte-Shrinks [] b rest e = ground arith
decode_byte-Shrinks (c ∷ data') b rest e = ground arith

parse_pem-Blocks_example : parse_pem test_certs (1 ∷ 2 ∷ []) ≡ (
    if is_empty (certs_of test_certs (byte_block 1 ∷ byte_block 2 ∷ []))
    then none
    else some (
      certs_of test_certs (byte_block 1 ∷ byte_block 2 ∷ []),
      pem_of test_certs (byte_block 1 ∷ byte_block 2 ∷ []),
    ))
parse_pem-Blocks_example =
    parse_pem-Blocks test_certs (1 ∷ 2 ∷ []) (byte_block 1 ∷ byte_block 2 ∷ []) decode_byte-Shrinks
      (2 ∷ [], refl, ([], refl, refl))

abbrev one_cert : List Certificate
one_cert = record { raw = 1 ∷ [] } ∷ []

parse_certs_lem_example : IsFound test_certs (1 ∷ []) (ok (one_cert, 1 ∷ []))
unfolding parse_certs parse_pem or_else_try pem_loop take_block
parse_certs_lem_example = parse_certs_lem test_certs (1 ∷ [])

env_with-Paced : Paced (env_with "" 503) []
unfolding waits
env_with-Paced t = rw (append-nil t) (omega arith)

wait_for_ready-ends_example :
    (wait_for_ready (env_with "" 503) test_client (12 * second) with_token).0 ≢ err out_of_rounds
wait_for_ready-ends_example =
    wait_for_ready-ends (env_with "" 503) test_client (12 * second) with_token env_with-Paced

abbrev rejection : Error
rejection =
    wrapf "%w: %d for application %q: %s" (num 403 ∷ quoted "demo" ∷ bytes [] ∷ [])
      err_token_expired

get_oauth2_provider_by_slug-Rejected_example :
    Rejected
      (env_with "" 403)
      (get_oauth2_provider_by_slug (env_with "" 403) test_client "demo" with_token).1.trace
unfolding get_oauth2_provider_by_slug get_application authorized is_unauthorized limited
get_oauth2_provider_by_slug-Rejected_example =
    get_oauth2_provider_by_slug-Rejected (env_with "" 403) test_client env_with-Foreign "demo"
      with_token rejection refl refl

create_api_token-Created_example :
    Created
      (env_with "" 200)
      test_client
      "authentik-operator"
      "new-token"
      with_token
      (create_api_token (env_with "" 200) test_client "authentik-operator" with_token).1
unfolding create_api_token view_token_key authorized check_created
create_api_token-Created_example =
    create_api_token-Created (env_with "" 200) test_client "authentik-operator" "new-token"
      with_token refl
