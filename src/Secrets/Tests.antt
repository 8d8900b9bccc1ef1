-- ===== src/Secrets/Tests.antt =====
-- The theorems on secrets at concrete texts.
use wrangle_webhooks.Base.{Text, codes, ◌++◌}

abbrev short : Text
short = codes "ab"

-- A keyed hash for the tests.
abbrev hmac : Text → Text → Text
hmac secret message = secret ++ message
