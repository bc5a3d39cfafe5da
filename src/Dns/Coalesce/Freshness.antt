-- ===== src/Dns/Coalesce/Freshness.antt =====
-- A call never waits for a synchronisation that read the tables before it was made.
use edge_caddy.Prelude.{
  ℕ, ◌≤◌, ◌<◌, Bool, true, false, Option, none, some, List, [], ◌∷◌, ◌++◌, ◌≡◌, refl, ◌≢◌, arith,
  All,
}
use edge_caddy.Dns.Coalesce.{
  Call, Read, Orchestrator, Event, write, call, begin, begin_direct, release, idle, join, start,
  step, run,
}

-- The read is not of the call's batch, or it is not older than the call.
abbrev Fits : Call → Read → Type 0
Fits c r = (r.batch ≡ c.batch) → c.asked_at ≤ r.version

abbrev IsKnown : Orchestrator → Call → Type 0
IsKnown s c = (c.asked_at ≤ s.version) × (c.batch < s.next_batch)

abbrev IsUnread : Option ℕ → ℕ → List Read → Type 0
IsUnread none next rs = Unit
IsUnread (some b) next rs = (b < next) × All (λ (r : Read). r.batch ≢ b) rs

record IsFresh (s : Orchestrator) : Type 0 where
  known : All (IsKnown s) s.calls
  begun : All (λ (r : Read). r.batch < s.next_batch) s.reads
  unread : IsUnread s.pending s.next_batch s.reads
  fits : All (λ (c : Call). All (Fits c) s.reads) s.calls

All-map :
    {A : Type 0} {P Q : A → Type 0} (f : (a : A) → P a → Q a) (xs : List A) → All P xs → All Q xs
All-map f [] h = tt
All-map f (x ∷ xs) h = (f x h.0, All-map f xs h.1)

All-both :
    {A : Type 0} (P Q : A → Type 0) (xs : List A) → All P xs → All Q xs → All (λ a. P a × Q a) xs
All-both P Q [] h g = tt
All-both P Q (x ∷ xs) h g = ((h.0, g.0), All-both P Q xs h.1 g.1)

join-IsFresh : (p : Option ℕ) (s : Orchestrator) → s.pending ≡ p → IsFresh s → IsFresh (join p s)
unfolding join
join-IsFresh (some b) s e h =
    let u : IsUnread (some b) s.next_batch s.reads = rw e at h.unread in
    record {
      known = ((omega arith, u.0), h.known);
      begun = h.begun;
      unread = h.unread;
      fits = (All-map (λ r apart same. elim (apart same) [ ]) s.reads u.1, h.fits);
    }
join-IsFresh none s e h = record {
  known = ((omega arith, omega arith), All-map (λ c k. (k.0, omega (arith, k.1))) s.calls h.known);
  begun = All-map (λ r lt. omega (arith, lt)) s.reads h.begun;
  unread = (omega arith, All-map (λ r lt same. omega (arith, lt, same)) s.reads h.begun);
  fits = (All-map (λ r lt same. omega (arith, lt, same)) s.reads h.begun, h.fits);
}

start-IsFresh :
    (busy : Bool) (p : Option ℕ) (s : Orchestrator)
    → s.pending ≡ p
    → IsFresh s
    → IsFresh (start busy p s)
unfolding start
start-IsFresh true p s e h = h
start-IsFresh false none s e h = h
start-IsFresh false (some b) s e h =
    let u : IsUnread (some b) s.next_batch s.reads = rw e at h.unread in
    record {
      known = h.known;
      begun = (u.0, h.begun);
      unread = tt;
      fits =
          All-map (λ c k. ((λ same. k.0.0), k.1)) s.calls
            (All-both (IsKnown s) (λ c. All (Fits c) s.reads) s.calls h.known h.fits);
    }

step-IsFresh : (s : Orchestrator) (e : Event) → IsFresh s → IsFresh (step s e)
unfolding step
step-IsFresh s write h = record {
  known = All-map (λ c k. (omega (arith, k.0), k.1)) s.calls h.known;
  begun = h.begun;
  unread = h.unread;
  fits = h.fits;
}
step-IsFresh s call h = join-IsFresh s.pending s refl h
step-IsFresh s begin h = start-IsFresh s.busy s.pending s refl h
step-IsFresh s begin_direct h = record {
  known = h.known;
  begun = h.begun;
  unread = h.unread;
  fits = h.fits;
}
step-IsFresh s release h = record {
  known = h.known;
  begun = h.begun;
  unread = h.unread;
  fits = h.fits;
}

run-IsFresh : (s : Orchestrator) (es : List Event) → IsFresh s → IsFresh (run s es)
unfolding run
run-IsFresh s [] h = h
run-IsFresh s (e ∷ es) h = run-IsFresh (step s e) es (step-IsFresh s e h)

All-at :
    {A : Type 0} (P : A → Type 0) (before : List A) (x : A) (after : List A)
    → All P (before ++ x ∷ after)
    → P x
All-at P [] x after h = h.0
All-at P (_ ∷ before) x after h = All-at P before x after h.1

-- From the idle state, however writes, calls and synchronisations interleave: a synchronisation that
-- a call waits for has read the tables as they were at the call, or later.
pub read_after_call :
    (es : List Event) (c : Call) (r : Read) (cs ds : List Call) (rs qs : List Read)
    → (run idle es).calls ≡ cs ++ c ∷ ds
    → (run idle es).reads ≡ rs ++ r ∷ qs
    → r.batch ≡ c.batch
    → c.asked_at ≤ r.version
read_after_call es c r cs ds rs qs called read same =
    let h = run-IsFresh idle es (record { known = tt; begun = tt; unread = tt; fits = tt }) in
    let at_call : All (Fits c) (run idle es).reads =
      All-at (λ d. All (Fits d) (run idle es).reads) cs c ds (rw called at h.fits) in
    All-at (Fits c) rs r qs (rw read at at_call) same
