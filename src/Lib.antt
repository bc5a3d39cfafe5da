-- ===== src/Lib.antt =====
-- edge_caddy: a control plane for a fleet of edge proxies. The master keeps the resources (routes,
-- access rules, global policies) in a database, collects changes as drafts and deploys them: it merges
-- the chosen drafts over the live resources, renders a configuration, pushes it to every node and
-- commits. Agents run next to Caddy on the nodes, keep a connection to the master, send heartbeats and
-- logs and apply what is pushed. From the heartbeats the master decides which nodes are healthy, and
-- DNS resolution follows that decision and the administrator's.
--
-- The files, and the code that they model:
--   Agent/Backoff      internal/agent/backoff.go: ReconnectBackoff and its Next. A duration is a number
--                      of nanoseconds.
--   Agent/LogBuffer    internal/agent/logbuf.go (add, take, putBack) and the loop logLoop of agent.go,
--                      as a run over events: a line is logged, the timer fires, a send ends well or not.
--   Health/State       internal/health/health.go: the nodeState of a node and the Monitor, with
--                      SetTiming, Alive, Forget, warm and the deadline of a node.
--   Health/Observe     observeAt: a heartbeat, with classify and the windows of samples.
--   Health/Tick        tickAt: the periodic check for silent nodes. Health/Episodes runs all of these.
--   Store/Nodes        internal/store/nodes.go: the columns of a node's row that decide its resolution,
--                      and each UPDATE on them as a function.
--   Deploy/Json        JSON values. Deploy/Keys has the keys of drafts (`route:`, `rule:`, `global:`).
--   Deploy/Merge       internal/deploy/deploy.go: deepMerge, mergeInto, mergeRuleDraft.
--   Deploy/Effective   deploy.go: effective, over the tables of resources and drafts.
--   Deploy/Commit      internal/store/commit.go: CommitDeploy, with the upserts of routes.go, rules.go
--                      and policies.go.
--   Deploy/Snapshot    internal/deploy/snapshot.go: diffToDrafts, which a rollback saves as drafts.
--   Deploy/Retry       internal/deploy/retry.go: Retrier.run. What the pushes answer, when the retry is
--                      cancelled and what baseline is read are functions of its world.
--   Agent/RateLimit    internal/agent/ratelimit.go: allow, with exact fractions, and the sweep's test.
--   Agent/Verify       internal/agent/verify.go and verify_jwt.go: the endpoint that Caddy asks about a
--                      request. Calls has what it uses of libraries, Secret the signatures, Jwks the
--                      bearer tokens, Sweep the sweeper of ratelimit.go, Handle the endpoint itself.
--   Render/Resources   internal/model/model.go. Render/Go has what the renderer calls of Go's library,
--                      Render/Caddy the part of Caddy's configuration that it writes, and Caddy.
--   Render/Validate    internal/render/render.go: Validate.
--   Render/Access      render.go: the routes of a configuration; Render/BodyMax is parseBodyMax.
--   Render/Policy      internal/render/policy.go. Render/Config is Render.
--   Render/VerifyRules render.go: VerifyRules, which Agent/Verify takes.
--   Deploy/Support     deploy.go: unsupportedRules, nodeSupports, countEffectiveRules.
--   Deploy/Pipeline    deploy.go: Deploy, from the checks to the commit and the hand-over to the retry.
--                      Its world has the answers of the database, the renderer and the nodes.
--   Deploy/NodeUp      deploy.go: RepushNode and NodeUp, as what they do to the node, in order.
--   Dns/Plan           internal/dnssched/plan.go: Build and Rotation.
--   Dns/Coalesce       internal/dnsops/orchestrator.go: syncCoalesced, as steps that interleave.
--   Api/LoginRate      internal/api/loginrate.go and the part of handleLogin (auth.go) that uses it,
--                      in two steps, so that attempts overlap.
--   Agent/Drain        internal/agent/drain.go: waitDrained, over what each count of connections finds.
--   Tunnel/Enroll      internal/tunnel/server.go: identify, which lets an agent in, with the statements
--                      of internal/store/enroll.go and nodes.go, as phases that interleave.
--   Tunnel/Sessions    server.go: the map of sessions (register, unregister, Disconnect).
--   Tunnel/Waiters     internal/tunnel/session.go: the waiters of push, and deliver.
--   Ws/Hub             internal/ws/hub.go: Subscribe, Broadcast, CloseAll, and who reads.
--   Alert              internal/alert/alert.go: Notify, postWithRetry.
-- Each component's file has the definitions; its child modules have the theorems, and the one named
-- Samples the concrete runs. Prelude has the Boolean tests, the lists and the maps.
--
-- The rounds of a retry and the attempts of an alert are counted down from their maximum, as in the
-- source; the loops over lists are recursion on the list; the JSON of a merge is recursion on the draft.
-- Only the wait for a node to drain has fuel: one count for each poll that fits into the timeout, and
-- two more, since the first count is made at once and the last may come after the deadline. Times are
-- natural numbers of nanoseconds.
-- Machine integers do not wrap where the values are bounded by the code (the backoff is at most
-- thirty seconds, the buffer at most 500 lines).
--
-- Not modelled: the database itself, and of its errors more than that they end an operation; the
-- connections (gRPC, WebSocket, HTTP), the files and processes of the agent, cryptography, certificates
-- and ACME, the clients of the DNS providers, and the goroutines, of which the model has the order of
-- their steps only. What Caddy does with a configuration is a parameter, with the behaviour that its
-- documentation states. In the deployment a draft is merged over the object that the resource is
-- encoded to, and decoding it again is left out.
pub mod Prelude
pub mod Agent
pub mod Health
pub mod Store
pub mod Deploy
pub mod Dns
pub mod Api
pub mod Render
pub mod Tunnel
pub mod Alert
pub mod Ws
