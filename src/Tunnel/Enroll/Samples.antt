-- ===== src/Tunnel/Enroll/Samples.antt =====
-- Two agents with one token.
use edge_caddy.Prelude.{◌+◌, ◌≤◌, true, String, List, [], ◌∷◌, ◌≡◌, refl}
use edge_caddy.Prelude.Assoc.{lookup, insert}
use edge_caddy.Tunnel.Enroll.{
  NodeSpec, read_baseline, done, accepted, overtaken, internal_error, replied, done_unheard,
}
use edge_caddy.Tunnel.Enroll.Exact.{used_count-run}
use edge_caddy.Tunnel.Enroll.Moves.{Move, go_on, issue, System, run, used_count, wins, losses}

abbrev sample_spec : NodeSpec
sample_spec = record {
  node_id = "n1";
  city = "c";
  vendor = "v";
  line = "l";
  public_ip = "192.0.2.1";
}

-- Each call shows the same token.
abbrev sample_system : System
sample_system = record {
  tables = record { nodes = []; tokens = []; events = [] };
  calls = λ i. (record { cert_cn = ""; token = "ec_1"; node_id = "n1" }, read_baseline);
}

abbrev plain_hash : String → String
plain_hash s = s

-- Both look at the token before one of them uses it.
abbrev race : List Move
race =
    issue 0 "ec_1" sample_spec
    ∷ go_on 1 replied 1
    ∷ go_on 2 replied 1
    ∷ go_on 1 replied 2
    ∷ go_on 2 replied 2
    ∷ go_on 1 replied 3
    ∷ go_on 2 replied 3
    ∷ go_on 1 replied 4
    ∷ go_on 2 replied 4
    ∷ go_on 1 replied 5
    ∷ go_on 2 replied 5
    ∷ go_on 2 replied 6
    ∷ go_on 1 replied 7
    ∷ []

race_ends :
    (((run plain_hash race sample_system).calls 2).1 ≡ done (accepted "n1" true))
    × (((run plain_hash race sample_system).calls 1).1 ≡ done overtaken)
unfolding run lookup insert
race_ends = (refl, refl)

-- A third call with the token is let in as far as its statement goes, but does not hear it.
abbrev unlucky : List Move
unlucky =
    issue 0 "ec_1" sample_spec
    ∷ go_on 3 replied 1
    ∷ go_on 3 replied 1
    ∷ go_on 3 replied 1
    ∷ go_on 3 replied 1
    ∷ go_on 3 replied 1
    ∷ go_on 3 done_unheard 1
    ∷ []

unlucky_ends :
    (((run plain_hash unlucky sample_system).calls 3).1 ≡ done internal_error)
    × (used_count "ec_1" (run plain_hash unlucky sample_system).tables.tokens ≡ 1)
unfolding run lookup insert
unlucky_ends = (refl, refl)

used_count-run_example :
    (used_count "ec_1" (run plain_hash race sample_system).tables.tokens
      ≡ used_count "ec_1" sample_system.tables.tokens
        + wins plain_hash "ec_1" race sample_system
        + losses plain_hash "ec_1" race sample_system)
    × (wins plain_hash "ec_1" race sample_system + losses plain_hash "ec_1" race sample_system ≤ 1)
used_count-run_example = used_count-run plain_hash "ec_1" race sample_system
