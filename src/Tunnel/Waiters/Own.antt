-- ===== src/Tunnel/Waiters/Own.antt =====
-- A push gets the reply to its own version, and one at most.
use edge_caddy.Prelude.{
  ℕ, Bool, true, false, String, str_eq, eq_iff, Option, none, some, List, [], ◌∷◌, ◌≡◌, ◌⊎◌, refl,
  sym, ap, ◌∙◌, ◌==◌, ==_iff, if◌then◌else◌, inl, inr,
}
use edge_caddy.Prelude.Assoc.{Assoc, lookup, delete, lookup-insert, lookup-delete}
use edge_caddy.Tunnel.Waiters.{
  PushResult, Push, Waiting, nothing_waits, begin_fresh, begin_push, end_found, end_push, receive,
  send_found, deliver, Event, begins, ends, replied, step, run,
}

-- Nothing, or one reply to the version.
abbrev pub IsOwn : Push → Type 0
IsOwn p = (p.received ≡ []) ⊎ ((r : PushResult) × ((p.received ≡ r ∷ []) × (r.version ≡ p.version)))

two_values : true ≡ false → ⊥
two_values h = cc

abbrev fresh : String → Push
fresh version = record { version = version; received = [] }

-- A push that still waits has received nothing.
abbrev AreFresh : Assoc ℕ → (ℕ → Option Push) → Type 0
AreFresh waiters pushes =
    (k : String) (id : ℕ) → lookup k waiters ≡ some id → pushes id ≡ some (fresh k)

abbrev AreOwn : (ℕ → Option Push) → Type 0
AreOwn pushes = (id : ℕ) (p : Push) → pushes id ≡ some p → IsOwn p

abbrev IsGood : Waiting → Type 0
IsGood s = AreFresh s.waiters s.pushes × AreOwn s.pushes

lookup-deleted :
    (version k : String) (waiters : Assoc ℕ) (id : ℕ)
    → lookup k (delete version waiters) ≡ some id
    → (str_eq version k ≡ false) × (lookup k waiters ≡ some id)
lookup-deleted version k waiters id found =
    by_test (str_eq version k) refl (sym (lookup-delete version k waiters) ∙ found)
  where
    by_test :
        (b : Bool)
        → str_eq version k ≡ b
        → (if b then none else lookup k waiters) ≡ some id
        → (str_eq version k ≡ false) × (lookup k waiters ≡ some id)
    by_test true e h = cc
    by_test false e h = (e, h)

same_id : (i j : ℕ) → some i ≡ some j → i ≡ j
same_id i j h = ap or_zero h
  where
    or_zero : Option ℕ → ℕ
    or_zero none = 0
    or_zero (some n) = n

same_push : (p q : Push) → some p ≡ some q → p ≡ q
same_push p q h = ap or_p h
  where
    or_p : Option Push → Push
    or_p none = p
    or_p (some x) = x

some_is_not_none : (p : Push) → none ≡ some p → ⊥
some_is_not_none p h = cc

begin_fresh-IsGood :
    (id : ℕ) (version : String) (s : Waiting) (o : Option Push)
    → s.pushes id ≡ o
    → IsGood s
    → IsGood (begin_fresh id version o s)
begin_fresh-IsGood id version s (some p) e good = good
begin_fresh-IsGood id version s none free (are_fresh, are_own) = (
  λ k j found.
      waits k j (str_eq version k) refl (j == id) refl
        (sym (lookup-insert version k id s.waiters) ∙ found),
  λ j p h. own j p (j == id) h,
)
  where
    at : ℕ → Bool → Option Push
    at j b = if b then some (fresh version) else s.pushes j

    waits :
        (k : String) (j : ℕ) (same : Bool)
        → str_eq version k ≡ same
        → (b : Bool) → (j == id) ≡ b
        → (if same then some id else lookup k s.waiters) ≡ some j
        → at j b ≡ some (fresh k)
    waits k j true e true here h = ap (λ v. some (fresh v)) ((eq_iff version k).0 e)
    waits k j true e false apart h =
        absurd (two_values (sym ((==_iff j id).1 (sym (same_id id j h))) ∙ apart))
    waits k j false e true here h = absurd (
        some_is_not_none (fresh k)
          (sym free ∙ ap s.pushes (sym ((==_iff j id).0 here)) ∙ are_fresh k j h))
    waits k j false e false apart h = are_fresh k j h

    own : (j : ℕ) (p : Push) (b : Bool) → at j b ≡ some p → IsOwn p
    own j p true h = inl (sym (ap Push.received (same_push (fresh version) p h)))
    own j p false h = are_own j p h

end_found-IsGood : (o : Option Push) (s : Waiting) → IsGood s → IsGood (end_found o s)
end_found-IsGood none s good = good
end_found-IsGood (some p) s (are_fresh, are_own) =
    (λ k id found. are_fresh k id (lookup-deleted p.version k s.waiters id found).1, are_own)

send_found-IsGood :
    (o : Option ℕ) (r : PushResult) (s : Waiting)
    → lookup r.version s.waiters ≡ o
    → IsGood s
    → IsGood (send_found o r (record s { waiters = delete r.version s.waiters }))
send_found-IsGood none r s e (are_fresh, are_own) =
    (λ k id found. are_fresh k id (lookup-deleted r.version k s.waiters id found).1, are_own)
send_found-IsGood (some id) r s e (are_fresh, are_own) = (
  λ k j found.
      let before = lookup-deleted r.version k s.waiters j found in
      waits k j (j == id) refl before.0 (are_fresh k j before.1),
  λ j p h. own j p (j == id) refl h,
)
  where
    at : ℕ → Bool → Option Push
    at j b = if b then receive r (s.pushes j) else s.pushes j

    waiting : s.pushes id ≡ some (fresh r.version)
    waiting = are_fresh r.version id e

    waits :
        (k : String) (j : ℕ) (b : Bool)
        → (j == id) ≡ b
        → str_eq r.version k ≡ false
        → s.pushes j ≡ some (fresh k)
        → at j b ≡ some (fresh k)
    waits k j true here other h =
        let same : fresh r.version ≡ fresh k =
          same_push (fresh r.version) (fresh k)
            (sym waiting ∙ ap s.pushes (sym ((==_iff j id).0 here)) ∙ h) in
        absurd (two_values (sym ((eq_iff r.version k).1 (ap Push.version same)) ∙ other))
    waits k j false apart other h = h

    own : (j : ℕ) (p : Push) (b : Bool) → (j == id) ≡ b → at j b ≡ some p → IsOwn p
    own j p true here h =
        let got : record { version = r.version; received = r ∷ [] } ≡ p =
          same_push (record { version = r.version; received = r ∷ [] }) p
            (sym (ap (receive r) (ap s.pushes ((==_iff j id).0 here) ∙ waiting)) ∙ h) in
        inr (r, (sym (ap Push.received got), ap Push.version got))
    own j p false apart h = are_own j p h

step-IsGood : (e : Event) (s : Waiting) → IsGood s → IsGood (step e s)
unfolding step begin_push end_push deliver
step-IsGood (begins id version) s good = begin_fresh-IsGood id version s (s.pushes id) refl good
step-IsGood (ends id) s good = end_found-IsGood (s.pushes id) s good
step-IsGood (replied r) s good = send_found-IsGood (lookup r.version s.waiters) r s refl good

run-IsGood : (es : List Event) (s : Waiting) → IsGood s → IsGood (run es s)
unfolding run
run-IsGood [] s good = good
run-IsGood (e ∷ es) s good = run-IsGood es (step e s) (step-IsGood e s good)

-- Whatever order pushes begin and end in and replies come in, of whatever versions, on a session that
-- starts without pushes: a push receives one reply at most, so that its channel of one place is never
-- full and reading goes on, and that reply is to its own version.
pub run-IsOwn :
    (es : List Event) (id : ℕ) (p : Push) → (run es nothing_waits).pushes id ≡ some p → IsOwn p
unfolding lookup
run-IsOwn es id p = (run-IsGood es nothing_waits (λ k j h. cc, λ j q h. cc)).1 id p
