-- ===== src/Agent/Verify/Replay.antt =====
-- A signature is not let through a second time, whatever the endpoint does in between.
use edge_caddy.Prelude.{
  ℕ, ◌+◌, ◌*◌, ◌≤◌, ◌<◌, Bool, true, false, not, ◌&&◌, ◌||◌, String, str_append, leb, leb→le,
  Option, none, some, List, [], ◌∷◌, ◌≡◌, refl, sym, ap, subst, ◌∙◌, if◌then◌else◌, Bool-cases, inl,
  inr, All, All-map, arith, str_eq,
}
use edge_caddy.Prelude.Int.{ℤ, pos, negsuc}
use edge_caddy.Prelude.Assoc.{Assoc, lookup}
use edge_caddy.Render.Resources.{VerifyRule}
use edge_caddy.Agent.RateLimit.{second}
use edge_caddy.Agent.Verify.{AgentRule}
use edge_caddy.Agent.Verify.Calls.{Calls}
use native.Mathlib.Nat.{le_trans}
use edge_caddy.Agent.Verify.Secret.{
  Request, outside_window, in_window, is_signed, seen_key, admit, verify_service_secret,
}
use edge_caddy.Agent.Verify.Handle.{Verifier, handle, set_rules, load_geo_db, sweep}
use edge_caddy.Agent.Verify.Cache.{Keeps, admit-kept, admit-new, sweep_seen-Keeps, kept_entry}
use edge_caddy.Agent.Verify.Kept.{handle-Keeps}
use edge_caddy.Agent.Verify.Accepts.{status_of, ok_if_200, status-secret, seen-secret, parts_of}

-- What happens to the endpoint: a request, new rules, another GeoIP database, or the sweeper.
pub data Event (Reader : Type 0) : Type 0 where
  serve : Request → Event Reader
  renew : List VerifyRule → Event Reader
  load : Option Reader → Event Reader
  tick : Event Reader

-- The time of a signature is not after a moment.
abbrev pub is_past : ℕ → Option ℤ → Bool
is_past now none = false
is_past now (some (pos sec)) = leb (sec * second) now
is_past now (some (negsuc sec)) = true

module _ (calls : Calls) where
  unfoldable pub step : ℕ → Event calls.Reader → Verifier calls.Reader → Verifier calls.Reader
  unfolding handle set_rules load_geo_db sweep
  step now (serve r) v = (handle calls now r v).0
  step now (renew rules) v = set_rules calls rules v
  step now (load reader) v = load_geo_db calls reader v
  step now tick v = sweep calls now v

  unfoldable pub run : List (ℕ × Event calls.Reader) → Verifier calls.Reader → Verifier calls.Reader
  unfolding step
  run [] v = v
  run ((now, e) ∷ events) v = run events (step now e v)

  step-Keeps :
      (key : String) (until now : ℕ) (e : Event calls.Reader) (v : Verifier calls.Reader)
      → now ≤ until
      → Keeps key until v.seen
      → Keeps key until (step now e v).seen
  unfolding step set_rules load_geo_db sweep
  step-Keeps key until now (serve r) v early keeps =
      handle-Keeps calls key until now early r v keeps
  step-Keeps key until now (renew rules) v early keeps = keeps
  step-Keeps key until now (load reader) v early keeps = keeps
  step-Keeps key until now tick v early keeps = sweep_seen-Keeps key until now early v.seen keeps

  run-Keeps :
      (key : String) (until : ℕ) (events : List (ℕ × Event calls.Reader))
      (v : Verifier calls.Reader)
      → All (λ e. e.0 ≤ until) events
      → Keeps key until v.seen
      → Keeps key until (run events v).seen
  unfolding run
  run-Keeps key until [] v early keeps = keeps
  run-Keeps key until ((now, e) ∷ events) v early keeps =
      run-Keeps key until events (step now e v) early.1 (step-Keeps key until now e v early.0 keeps)

  module _ (rule : AgentRule) (replay : rule.replay ≡ true) where
    verify_once :
        (now : ℕ) (r : Request) (seen : Assoc ℕ)
        → verify_service_secret calls now rule r seen ≡ (
            if is_signed calls now rule r
            then admit now (seen_key calls rule r) rule.ttl seen
            else (seen, false))
    unfolding verify_service_secret
    verify_once now r seen = simp replay refl

    -- A signature that was let through is in the cache.
    verified-Keeps :
        (now : ℕ) (r : Request) (seen : Assoc ℕ)
        → (verify_service_secret calls now rule r seen).1 ≡ true
        → Keeps
            (seen_key calls rule r)
            (now + rule.ttl)
            (verify_service_secret calls now rule r seen).0
    verified-Keeps now r seen ok =
        subst (λ o. Keeps (seen_key calls rule r) (now + rule.ttl) o.0)
          (sym (verify_once now r seen))
          (through (is_signed calls now rule r) (sym (ap (λ o. o.1) (verify_once now r seen)) ∙ ok))
      where
        through :
            (signed : Bool)
            → (if signed then admit now (seen_key calls rule r) rule.ttl seen else (seen, false)).1
              ≡ true
            → Keeps
                (seen_key calls rule r)
                (now + rule.ttl)
                (if signed
                  then admit now (seen_key calls rule r) rule.ttl seen
                  else (seen, false)).0
        through true ok =
            (now + rule.ttl, (admit-new now (seen_key calls rule r) rule.ttl seen ok, omega arith))
        through false ok = cc

    -- One that is in the cache is refused.
    refused-Keeps :
        (now : ℕ) (r : Request) (until : ℕ) (seen : Assoc ℕ)
        → now ≤ until
        → Keeps (seen_key calls rule r) until seen
        → (verify_service_secret calls now rule r seen).1 ≡ false
    refused-Keeps now r until seen early (dies, (found, late)) =
        let key = seen_key calls rule r in
        ap (λ o. o.1) (verify_once now r seen)
        ∙ refused (is_signed calls now rule r) (
            ap (λ o. o.1)
              (admit-kept now key rule.ttl seen dies found
                (kept_entry key until now early dies late)))
      where
        refused :
            (signed : Bool)
            → (admit now (seen_key calls rule r) rule.ttl seen).1 ≡ false
            → (if signed then admit now (seen_key calls rule r) rule.ttl seen else (seen, false)).1
              ≡ false
        refused true known = known
        refused false known = refl

    out_of_window :
        (before now ttl : ℕ) (o : Option ℤ)
        → is_past before o ≡ true
        → before + ttl < now
        → in_window calls now ttl o ≡ false
    unfolding outside_window
    out_of_window before now ttl none past late = refl
    out_of_window before now ttl (some (pos sec)) past late = ground arith
    out_of_window before now ttl (some (negsuc sec)) past late = ground arith

    -- One whose time is too long ago is refused.
    refused_late :
        (before now : ℕ) (r : Request) (seen : Assoc ℕ)
        → is_past before (calls.parse_int (parts_of calls rule r).ts) ≡ true
        → before + rule.ttl < now
        → (verify_service_secret calls now rule r seen).1 ≡ false
    unfolding is_signed
    refused_late before now r seen past late =
        let p = parts_of calls rule r in
        let unsigned : is_signed calls now rule r ≡ false =
          rw (out_of_window before now rule.ttl (calls.parse_int p.ts) past late) (
            never (not (str_eq (r.get_header rule.header) ""))
              (not (str_eq p.ts "" || str_eq p.sig ""))) in
        ap (λ o. o.1) (verify_once now r seen) ∙ rw unsigned refl
      where
        never : (a b : Bool) → (a && (b && false)) ≡ false
        never true true = refl
        never true false = refl
        never false b = refl

  -- A rule with a shared secret and replay protection has let a request through. Then, whatever happens
  -- to the endpoint afterwards (requests, new rules, databases, sweeps), a later request for the rule
  -- whose header has the same v1 is refused, as long as the rule is the same: however the header is
  -- written, with whatever method, URI and time, if the time that it names is not after the moment of
  -- the first request.
  pub signature_once :
      (first later : ℕ) (q again : Request) (v : Verifier calls.Reader) (rule : AgentRule)
      (events : List (ℕ × Event calls.Reader))
      → lookup (calls.trim_verify q.path) v.rules ≡ some rule
      → str_eq rule.kind "service_secret" ≡ true
      → rule.replay ≡ true
      → (handle calls first q v).1.status ≡ 200
      → All (λ e. e.0 ≤ later) events
      → lookup (calls.trim_verify again.path) (run events (handle calls first q v).0).rules
        ≡ some rule
      → (parts_of calls rule again).sig ≡ (parts_of calls rule q).sig
      → is_past first (calls.parse_int (parts_of calls rule again).ts) ≡ true
      → (handle calls later again (run events (handle calls first q v).0)).1.status ≡ 403
  signature_once first later q again v rule events found secret replay ok before still same past =
      let end = run events (handle calls first q v).0 in
      let until = first + rule.ttl in
      let through =
        ok_if_200 calls first q v rule _
          (sym (status-secret calls first q v rule found secret) ∙ ok) in
      let kept : Keeps (seen_key calls rule q) until (handle calls first q v).0.seen =
        subst (Keeps (seen_key calls rule q) until)
          (sym (seen-secret calls first q v rule found secret))
          (verified-Keeps rule replay first q v.seen through) in
      let one_key : seen_key calls rule again ≡ seen_key calls rule q =
        ap (λ sig. str_append rule.id (str_append ":" sig)) same in
      let refused : (verify_service_secret calls later rule again end.seen).1 ≡ false =
        elim (Bool-cases (leb later until)) [
          | inl early ↦
              refused-Keeps rule replay later again until end.seen (leb→le later until early) (
                subst (λ k. Keeps k until end.seen) (sym one_key)
                  (run-Keeps (seen_key calls rule q) until events (handle calls first q v).0
                    (All-map (λ e h. le_trans h (leb→le later until early)) events before) kept))
          | inr late ↦ refused_late rule replay first later again end.seen past (ground arith)
        ] in
      status-secret calls later again end rule still secret ∙ ap status_of refused
