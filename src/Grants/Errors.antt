-- ===== src/Grants/Errors.antt =====
-- src/grants.rs: `GrantError` with the HTTP status and the code of each refusal. A message keeps
-- its fixed words; the text of an interpolated third-party error is left out.
use sjbis.Prelude.{ℕ, String}

pub data GrantError : Type 0 where
  malformed : String → GrantError
  unsupported_alg : String → GrantError
  hash_mismatch : GrantError
  id_mismatch : String → String → GrantError
  unknown_signer : String → GrantError
  bad_signature : String → GrantError
  notification_not_found : String → GrantError
  target_not_found : String → GrantError
  grant_not_found : String → GrantError
  not_approval : String → GrantError
  not_open : String → GrantError
  question_mismatch : GrantError
  id_collision : String → GrantError
  not_once : String → GrantError
  already_claimed : String → GrantError
  registry : String → GrantError

unfoldable pub http_status : GrantError → ℕ
http_status (malformed m) = 400
http_status (notification_not_found i) = 404
http_status (target_not_found i) = 404
http_status (grant_not_found i) = 404
http_status (not_approval i) = 409
http_status (not_open i) = 409
http_status (id_collision i) = 409
http_status (not_once i) = 409
http_status (already_claimed i) = 409
http_status (unsupported_alg a) = 422
http_status hash_mismatch = 422
http_status (id_mismatch e g) = 422
http_status (unknown_signer s) = 422
http_status (bad_signature m) = 422
http_status question_mismatch = 422
http_status (registry m) = 500

unfoldable pub code : GrantError → String
code (malformed m) = "malformed"
code (unsupported_alg a) = "unsupported_alg"
code hash_mismatch = "hash_mismatch"
code (id_mismatch e g) = "id_mismatch"
code (unknown_signer s) = "unknown_signer"
code (bad_signature m) = "bad_signature"
code (notification_not_found i) = "notification_not_found"
code (target_not_found i) = "target_not_found"
code (grant_not_found i) = "not_found"
code (not_approval i) = "not_approval"
code (not_open i) = "not_open"
code question_mismatch = "question_mismatch"
code (id_collision i) = "id_collision"
code (not_once i) = "not_once"
code (already_claimed i) = "already_claimed"
code (registry m) = "registry_error"
