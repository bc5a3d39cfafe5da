-- ===== src/Api/LoginRate/Guard.antt =====
-- How many passwords one address can try.
use edge_caddy.Prelude.{
  ℕ, ◌+◌, ◌-◌, ◌≤◌, ◌<◌, Bool, true, false, String, List, [], ◌∷◌, ◌≡◌, refl, inl, inr, ◌⊎◌, zero,
  suc, Option, none, some, str_eq, arith, max, length, All,
}
use edge_caddy.Api.LoginRate.{
  LoginLimiter, blocked_keys, blocked, fail, succeed, LoginReply, wrong_password, Logins,
  LoginEvent, arrives, verified, take_nth, after_block, after_password, login_step,
}
use edge_caddy.Api.LoginRate.Fails.{
  fails_from, fails_from-blocked_keys, few-blocked_keys, fails_from-fail_keys, fails_from-delete,
}

abbrev is_wrong : Option LoginReply → ℕ
is_wrong (some wrong_password) = 1
is_wrong _ = 0

-- How many attempts are told that the password is wrong.
unfoldable pub wrong_answers : String → Logins → List LoginEvent → ℕ
wrong_answers ip d [] = 0
wrong_answers ip d (e ∷ es) =
    let (d', reply) = login_step ip e d in is_wrong reply + wrong_answers ip d' es

-- The largest number of passwords that are being checked at one time.
unfoldable pub busiest : String → Logins → List LoginEvent → ℕ
busiest ip d [] = length d.checking
busiest ip d (e ∷ es) = max (length d.checking) (busiest ip (login_step ip e d).0 es)

abbrev pub InWindow : ℕ → ℕ → ℕ → Type 0
InWindow start window at = (window ≤ start) × (start ≤ at) × (at < start + window)

-- The event falls into the window, and the key of its user is not the address's.
abbrev pub IsWithin : ℕ → ℕ → String → LoginEvent → Type 0
IsWithin start window ip (arrives at user) = InWindow start window at × (str_eq user ip ≡ false)
IsWithin start window ip (verified at nth verifies) = InWindow start window at

abbrev AreApart : String → List String → Type 0
AreApart ip = All (λ user. str_eq user ip ≡ false)

abbrev open_fails : ℕ → String → Logins → ℕ
open_fails start ip d = fails_from start ip d.limiter.fails

-- What one event does to the failures of the address and to the attempts that are being checked: there
-- are no more of both together, or a new attempt was let through.
record Stepped (start : ℕ) (ip : String) (d d' : Logins) (reply : Option LoginReply) : Type 0 where
  same_max : d'.limiter.max_n ≡ d.limiter.max_n
  same_window : d'.limiter.window ≡ d.limiter.window
  counted : open_fails start ip d' ≡ open_fails start ip d + is_wrong reply
  together :
      (open_fails start ip d' + length d'.checking ≤ open_fails start ip d + length d.checking)
      ⊎ ((open_fails start ip d' < d.limiter.max_n) × (length d'.checking ≡ length d.checking + 1))
  apart : AreApart ip d'.checking

abbrev SteppedTo : ℕ → String → Logins → Logins × Option LoginReply → Type 0
SteppedTo start ip d p = Stepped start ip d p.0 p.1

abbrev Taken : String → List String → Option (String × List String) → Type 0
Taken ip us none = Unit
Taken ip us (some (user, rest)) =
    (length us ≡ length rest + 1) × (str_eq user ip ≡ false) × AreApart ip rest

take_nth-Taken :
    (ip : String) (n : ℕ) (us : List String) → AreApart ip us → Taken ip us (take_nth n us)
unfolding take_nth
take_nth-Taken ip n [] h = tt
take_nth-Taken ip zero (u ∷ us) h = (omega arith, h.0, h.1)
take_nth-Taken ip (suc n) (u ∷ us) h = under (take_nth n us) (take_nth-Taken ip n us h.1)
  where
    under :
        (o : Option (String × List String))
        → Taken ip us o
        → Taken ip (u ∷ us) (elim o [ none ↦ none | some found ↦ some (found.0, u ∷ found.1) ])
    under none t = tt
    under (some (user, rest)) t = (omega (arith, t.0), t.1, (h.0, t.2))

arrives-Stepped :
    (start now : ℕ) (ip user : String) (d : Logins)
    → InWindow start d.limiter.window now
    → str_eq user ip ≡ false
    → AreApart ip d.checking
    → SteppedTo start ip d (login_step ip (arrives now user) d)
unfolding login_step blocked
arrives-Stepped start now ip user d (early, late, soon) other others =
    by_answer (blocked_keys l.max_n cutoff ks l.fails).1 refl
  where
    l : LoginLimiter
    l = d.limiter

    cutoff : ℕ
    cutoff = now - l.window

    ks : List String
    ks = ip ∷ user ∷ []

    seen : LoginLimiter
    seen = record l { fails = (blocked_keys l.max_n cutoff ks l.fails).0 }

    recently : cutoff < start
    recently = omega (arith, early, late, soon)

    kept : fails_from start ip seen.fails ≡ fails_from start ip l.fails
    kept = fails_from-blocked_keys start l.max_n cutoff ks ip l.fails recently

    by_answer :
        (over : Bool)
        → (blocked_keys l.max_n cutoff ks l.fails).1 ≡ over
        → SteppedTo start ip d (after_block user d (seen, over))
    by_answer true answer = record {
      same_max = refl;
      same_window = refl;
      counted = omega (arith, kept);
      together = inl (omega (arith, kept));
      apart = others;
    }
    by_answer false answer =
        let few = few-blocked_keys start l.max_n cutoff ip (user ∷ []) l.fails recently answer in
        record {
          same_max = refl;
          same_window = refl;
          counted = omega (arith, kept);
          together = inr (omega (arith, kept, few), omega arith);
          apart = (other, others);
        }

verified-Stepped :
    (start now : ℕ) (ip : String) (nth : ℕ) (verifies : Bool) (d : Logins)
    → InWindow start d.limiter.window now
    → AreApart ip d.checking
    → SteppedTo start ip d (login_step ip (verified now nth verifies) d)
unfolding login_step fail succeed
verified-Stepped start now ip nth verifies d (early, late, soon) others =
    by_taken (take_nth nth d.checking) (take_nth-Taken ip nth d.checking others) verifies
  where
    by_taken :
        (o : Option (String × List String))
        → Taken ip d.checking o
        → (right : Bool) → SteppedTo start ip d (after_password now ip right o d)
    by_taken none t right = record {
      same_max = refl;
      same_window = refl;
      counted = omega arith;
      together = inl (omega arith);
      apart = others;
    }
    by_taken (some (user, rest)) t true =
        let kept = fails_from-delete start ip user d.limiter.fails t.1 in
        record {
          same_max = refl;
          same_window = refl;
          counted = omega (arith, kept);
          together = inl (omega (arith, kept, t.0));
          apart = t.2;
        }
    by_taken (some (user, rest)) t false =
        let one_more =
          fails_from-fail_keys start now (now - d.limiter.window) ip user d.limiter.fails
            (omega (arith, early, late, soon)) late t.1 in
        record {
          same_max = refl;
          same_window = refl;
          counted = one_more;
          together = inl (omega (arith, one_more, t.0));
          apart = t.2;
        }

login_step-Stepped :
    (start : ℕ) (ip : String) (e : LoginEvent) (d : Logins)
    → IsWithin start d.limiter.window ip e
    → AreApart ip d.checking
    → SteppedTo start ip d (login_step ip e d)
login_step-Stepped start ip (arrives now user) d w others =
    arrives-Stepped start now ip user d w.0 w.1 others
login_step-Stepped start ip (verified now nth verifies) d w others =
    verified-Stepped start now ip nth verifies d w others

busiest-checking :
    (ip : String) (d : Logins) (es : List LoginEvent) → length d.checking ≤ busiest ip d es
unfolding busiest
busiest-checking ip d [] = omega arith
busiest-checking ip d (e ∷ es) = omega arith

wrong_answers_from :
    (start : ℕ) (ip : String) (d : Logins) (es : List LoginEvent)
    → All (IsWithin start d.limiter.window ip) es
    → AreApart ip d.checking
    → wrong_answers ip d es + open_fails start ip d
      ≤ max (open_fails start ip d + length d.checking) ((d.limiter.max_n - 1) + busiest ip d es)
unfolding wrong_answers busiest
wrong_answers_from start ip d [] w others = omega arith
wrong_answers_from start ip d (e ∷ es) w others =
    let s = login_step-Stepped start ip e d w.0 others in
    let d' = (login_step ip e d).0 in
    let later = wrong_answers_from start ip d' es (rw s.same_window w.1) s.apart in
    let room = busiest-checking ip d' es in
    elim s.together [
      | inl no_more ↦ omega (arith, s.same_max, s.counted, later, room, no_more)
      | inr (few, one_more) ↦ omega (arith, s.same_max, s.counted, later, room, few, one_more)
    ]

-- The attempts from one address within one window of time, which starts no earlier than a window after
-- the zero time and with no password being checked, may overlap in any way, name any users (with a key
-- other than the address's) and try any passwords: at most `max_n` less one (or 0, if `max_n` is 0) and
-- the largest number of passwords that are checked at one time, together, are told that the password is
-- wrong. Where attempts come one after the other and `max_n` is at least 1, that is at most `max_n`.
pub wrong_answers-bounded :
    (start : ℕ) (ip : String) (l : LoginLimiter) (es : List LoginEvent)
    → All (IsWithin start l.window ip) es
    → wrong_answers ip (record { limiter = l; checking = [] }) es
      ≤ (l.max_n - 1) + busiest ip (record { limiter = l; checking = [] }) es
wrong_answers-bounded start ip l es w =
    omega (arith, wrong_answers_from start ip (record { limiter = l; checking = [] }) es w tt)
