-- ===== src/Deploy/Commit/Samples.antt =====
-- A deployment of one route.
use edge_caddy.Prelude.{Bool, true, false, Option, none, some, List, [], ◌∷◌, ◌≡◌, refl}
use edge_caddy.Prelude.Assoc.{lookup, insert}
use edge_caddy.Deploy.Keys.{ResKey, route, key_eq, selected}
use edge_caddy.Deploy.Json.{Json, num, str, obj, arr, nil, Fields, end, field, get, put}
use edge_caddy.Deploy.Effective.{name_of, Tables, Config, orphans}
use edge_caddy.Deploy.Commit.{commit, upsert, upsert_body, default_str, default_slice}

abbrev shop : Fields
shop = field "domain" (str "shop.example") (field "body_max" (str "1MB") end)

-- The draft takes the limit away.
abbrev unlimited : Json
unlimited = obj (field "body_max" (str "") end)

abbrev before : Tables
before = record {
  routes = ("shop.example", record { body = shop; version = 4 }) ∷ [];
  rules = [];
  policies = [];
  drafts = (route "shop.example", unlimited) ∷ [];
  baseline = "v0004";
}

abbrev pushed : Config
pushed = record {
  routes =
      (
        "shop.example",
        field "domain" (str "shop.example")
            (field "body_max" (str "") (field "version" (num 4) end)),
      )
      ∷ [];
  rules = [];
  policies = [];
  orphans = [];
}

-- A parser that wants no spec at all.
abbrev reads : Option Json → Option Json → Bool
reads none none = true
reads _ _ = false

abbrev keys : List ResKey
keys = route "shop.example" ∷ []

-- What is live then has the limit that the store puts, and not what was pushed.
limited_again :
    (lookup "shop.example" (commit keys pushed "v0005" before).routes)
    ≡ some (record {
      body = field "domain" (str "shop.example") (
          field "body_max" (str "5MB") (
            field "version"
              (num 4)
              (field "whitelist" (arr nil) (field "block_mode" (str "abort") end))));
      version = 5;
    })
unfolding commit selected key_eq lookup insert upsert upsert_body name_of get put default_str
    default_slice
limited_again = refl
