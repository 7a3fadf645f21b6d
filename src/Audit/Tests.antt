-- ===== src/Audit/Tests.antt =====
-- Witnesses and tests of the audit log: a call with a password among its arguments.
use thruk_mcp.Audit.{
  Json, string, dict, done, field, get_field, truth, given, is_secret, redact, redact_fields,
  target, str,
}
use thruk_mcp.Audit.Redacted.{
  IsSame, dicts, secret_field, open_field, no_more, whole, redact-IsSame,
}
use thruk_mcp.Ordering.{member}
use thruk_mcp.Prelude.{String, ◌≡◌, refl, some, String_discrete}

abbrev call_with : String → Json
call_with password = dict (field "host" (string "web") (field "password" (string password) done))

redact-IsSame_example :
    (redact (call_with "swordfish") ≡ redact (call_with "xyzzy"))
    × IsSame (call_with "swordfish") (redact (call_with "swordfish"))
unfolding is_secret member String_discrete
redact-IsSame_example =
    redact-IsSame (call_with "swordfish") (call_with "xyzzy")
      (dicts (open_field "host" (whole (string "web")) (secret_field "password" refl no_more)))

masked : redact (call_with "swordfish") ≡ call_with "***"
unfolding redact redact_fields is_secret member String_discrete
masked = refl

abbrev no_text : Json → String
no_text v = ""

named :
    target no_text (field "service" (string "http") (field "host" (string "web") done))
    ≡ some (string "web/http")
unfolding target given get_field truth str
named = refl
