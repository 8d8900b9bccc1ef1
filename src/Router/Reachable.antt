-- ===== src/Router/Reachable.antt =====
-- The paths of a route, and the part of worker.ts that answers them.
use wrangle_webhooks.Base.{Text, codes}

abbrev json_page : Text
json_page = codes "dashboard.json"
