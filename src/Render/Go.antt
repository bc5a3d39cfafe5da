-- ===== src/Render/Go.antt =====
-- What the renderer calls of Go's library.
use edge_caddy.Prelude.{ℕ, Bool, String, Option, List, All}
use edge_caddy.Prelude.Int.{ℤ}
use edge_caddy.Render.Resources.{Cert, Rule, Route}

pub record Go : Type 1 where
  -- `strings.TrimSpace`
  pub trim_space : String → String
  -- `strings.Contains(e, "/")`
  pub contains_slash : String → Bool
  -- `net.ParseIP`: whether the address has a form of four bytes; `none` if it does not parse
  pub parse_ip : String → Option Bool
  -- `net.ParseCIDR` without an error
  pub parses_cidr : String → Bool
  -- `net.SplitHostPort`
  pub split_host_port : String → Option (String × String)
  -- `strconv.Atoi`
  pub atoi : String → Option ℤ
  -- `domainRE.MatchString`
  pub is_domain : String → Bool
  -- `regexp.Compile` without an error
  pub compiles : String → Bool
  -- `regexp.QuoteMeta`
  pub quote_meta : String → String
  -- the number and the unit that `bodyMaxRE` finds in the text, in capitals
  pub body_max_groups : String → Option (String × String)
  -- `strings.TrimSuffix(unit, "B")`
  pub trim_b : String → String
  -- `strconv.ParseFloat`, times a number, cut to an integer
  pub scaled : String → ℕ → Option ℕ
  -- `sort.Slice` by domain, and by ID; sorting adds nothing
  pub sort_certs : List Cert → List Cert
  pub sort_routes : List Route → List Route
  pub sort_rules : List Rule → List Rule
  pub sort_rules-All :
      (P : Rule → Type 0) (rules : List Rule) → All P rules → All P (sort_rules rules)
