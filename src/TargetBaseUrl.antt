-- ===== src/TargetBaseUrl.antt =====
-- target-base-url.ts: which public URL the router may fetch. The runtime's `URL` is a parameter.
use wrangle_webhooks.Base.{
  if◌then◌else◌, is_empty, Text, codes, text_eq, not, ◌||◌, Option, none, some,
}

-- The fields of a `URL` that are looked at, and its text.
pub record Url : Type 0 where
  pub protocol : Text
  pub username : Text
  pub password : Text
  pub hash : Text
  pub href : Text

-- The normalised URL, or the message of a `TargetBaseUrlError`.
pub data Target : Type 0 where
  valid : Text → Target
  invalid : Text → Target

-- `none` is the exception of `new URL(value)`.
unfoldable pub validate_target_base_url : (Text → Option Url) → Text → Target
validate_target_base_url parse_url value = elim (parse_url value) [
  | none ↦ invalid (codes "targetBaseUrl must be an absolute URL")
  | some url ↦
      if not (text_eq url.protocol (codes "https:"))
      then invalid (codes "targetBaseUrl must use https://")
      else if not (is_empty url.username) || not (is_empty url.password)
      then invalid (codes "targetBaseUrl must not contain credentials")
      else if not (is_empty url.hash)
      then invalid (codes "targetBaseUrl must not contain a fragment")
      else valid url.href
]
