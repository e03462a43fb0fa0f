-- ===== src/Principals/Tests.antt =====
-- Runs of services/central-api/app/core/principals.py on a small store, and its theorems at these runs.
use mini_ogas.Prelude.{
  ◌≤◌, ◌≡◌, refl, Bool, true, none, some, List, [], ◌∷◌, String, find, count, ok, arith,
}
use mini_ogas.Principals.{
  Principal, PrincipalType, Store, Secrets, Issued, is_live_of, is_principal, ensure_principal,
  assign_role, insert_credential, revoke_principal_credentials,
}
use mini_ogas.Principals.Credentials.{
  replace_credential, rotate, rotate_node_credential, authenticate_credential,
}
use mini_ogas.Principals.Runs.{Request, run_all, run_all-OneLive}
use mini_ogas.Principals.Access.{
  rotate-others, rotate-authenticate_credential,
  revoke_principal_credentials-authenticate_credential,
}

-- A digest that keeps tokens apart.
abbrev plain : String → String
plain token = token

abbrev any_type : PrincipalType → Bool
any_type type = true

abbrev no_principals : Store
no_principals = record {
  roles = "node_agent" ∷ "service_reader" ∷ "ai_agent" ∷ [];
  principals = [];
  principal_roles = [];
  credentials = [];
}

abbrev first_secrets : Secrets
first_secrets = record { token = "t-1"; credential_id = "cred-1"; now = 1 }

abbrev second_secrets : Secrets
second_secrets = record { token = "t-2"; credential_id = "cred-2"; now = 2 }

unfoldable with_press : Store
with_press = (rotate_node_credential plain "press" first_secrets no_principals).1

unfoldable with_new_token : Store
with_new_token =
    (rotate plain "node:press" PrincipalType.node "press" (some "press") "node_agent" second_secrets
      with_press).1

abbrev new_token : Issued
new_token = record { credential_id = "cred-2"; principal_id = "node:press"; token = "t-2" }

abbrev press : Principal
press = record {
  principal_id = "node:press";
  principal_type = PrincipalType.node;
  display_name = "press";
  node_code = some "press";
  active = true;
}

press-rotated :
    rotate plain "node:press" PrincipalType.node "press"
      (some "press")
      "node_agent"
      second_secrets
      with_press
    ≡ (ok new_token, with_new_token)
unfolding with_press with_new_token rotate rotate_node_credential ensure_principal assign_role
    replace_credential insert_credential
press-rotated = refl

press-there : find (is_principal "node:press") with_new_token.principals ≡ some press
unfolding with_press with_new_token rotate rotate_node_credential ensure_principal assign_role
    replace_credential insert_credential
press-there = refl

new_token-known :
    authenticate_credential plain "t-2" any_type 3 with_new_token ≡ some (press, "cred-2")
unfolding with_press with_new_token rotate rotate_node_credential ensure_principal assign_role
    replace_credential insert_credential authenticate_credential
new_token-known = refl

old_token-refused : authenticate_credential plain "t-1" any_type 3 with_new_token ≡ none
unfolding with_press with_new_token rotate rotate_node_credential ensure_principal assign_role
    replace_credential insert_credential authenticate_credential
old_token-refused = refl

rotate-others_example : plain "t-2" ≡ plain "t-2"
rotate-others_example =
    rotate-others plain "node:press" PrincipalType.node "press" (some "press") "node_agent"
      second_secrets with_press new_token with_new_token press-rotated "t-2" any_type 3 press
      "cred-2" new_token-known refl

rotate-authenticate_credential_example :
    authenticate_credential plain "t-2" any_type 3 with_new_token ≡ some (press, "cred-2")
rotate-authenticate_credential_example =
    rotate-authenticate_credential plain "node:press" PrincipalType.node "press" (some "press")
      "node_agent" second_secrets with_press new_token with_new_token press-rotated any_type 3 press
      press-there refl refl refl

-- Another principal's token is still known when the press's are revoked.
unfoldable with_two : Store
with_two = (rotate_node_credential plain "saw" second_secrets with_press).1

abbrev saw : Principal
saw = record {
  principal_id = "node:saw";
  principal_type = PrincipalType.node;
  display_name = "saw";
  node_code = some "saw";
  active = true;
}

saw-known :
    authenticate_credential plain "t-2" any_type 4
      (revoke_principal_credentials "node:press" 3 with_two).1
    ≡ some (saw, "cred-2")
unfolding with_press with_two rotate rotate_node_credential ensure_principal assign_role
    replace_credential insert_credential authenticate_credential revoke_principal_credentials
saw-known = refl

revoke_principal_credentials-authenticate_credential_example : ¬ (saw.principal_id ≡ "node:press")
revoke_principal_credentials-authenticate_credential_example =
    revoke_principal_credentials-authenticate_credential plain "node:press" 3 with_two "t-2"
      any_type 4 saw "cred-2" saw-known

abbrev requests : List Request
requests =
    Request.rotate_node "press" first_secrets
    ∷ Request.rotate_node "press" second_secrets
    ∷ Request.revoke "node:saw" 5
    ∷ []

none_live : (k : String) → count (is_live_of k) no_principals.credentials ≤ 1
none_live k = omega arith

run_all-OneLive_example :
    count (is_live_of "node:press") (run_all plain requests no_principals).credentials ≤ 1
run_all-OneLive_example = run_all-OneLive plain requests no_principals none_live "node:press"
