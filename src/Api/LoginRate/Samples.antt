-- ===== src/Api/LoginRate/Samples.antt =====
-- One address tries the passwords of two users.
use edge_caddy.Prelude.{◌+◌, ◌-◌, ◌≤◌, true, false, List, [], ◌∷◌, ◌≡◌, arith, refl}
use edge_caddy.Prelude.Assoc.{lookup, insert, delete}
use edge_caddy.Api.LoginRate.{
  login_window, new_login_limiter, LoginEvent, arrives, verified, Logins, login_step,
}
use edge_caddy.Api.LoginRate.Guard.{wrong_answers, busiest, wrong_answers-bounded}

-- The second attempt arrives while the first one's password is checked.
abbrev attempts : List LoginEvent
attempts =
    arrives login_window "user:ann"
    ∷ arrives (login_window + 5) "user:bob"
    ∷ verified (login_window + 7) 1 false
    ∷ verified (login_window + 9) 0 true
    ∷ []

abbrev idle : Logins
idle = record { limiter = new_login_limiter; checking = [] }

-- Six attempts at once are all told that the password is wrong, where five are allowed.
abbrev at_once : List LoginEvent
at_once =
    arrives login_window "u"
    ∷ arrives login_window "v"
    ∷ arrives login_window "w"
    ∷ arrives login_window "x"
    ∷ arrives login_window "y"
    ∷ arrives login_window "z"
    ∷ verified login_window 0 false
    ∷ verified login_window 0 false
    ∷ verified login_window 0 false
    ∷ verified login_window 0 false
    ∷ verified login_window 0 false
    ∷ verified login_window 0 false
    ∷ []

at_once_wrong : wrong_answers "ip" idle at_once ≡ 6
unfolding wrong_answers login_step new_login_limiter lookup insert delete
at_once_wrong = refl

wrong_answers-bounded_example :
    wrong_answers "ip:192.0.2.7" (record { limiter = new_login_limiter; checking = [] }) attempts
    ≤ (new_login_limiter.max_n - 1)
      + busiest "ip:192.0.2.7" (record { limiter = new_login_limiter; checking = [] }) attempts
unfolding new_login_limiter
wrong_answers-bounded_example =
    wrong_answers-bounded login_window "ip:192.0.2.7" new_login_limiter attempts (
      ((omega arith, omega arith, omega arith), refl),
      (
        ((omega arith, omega arith, omega arith), refl),
        ((omega arith, omega arith, omega arith), ((omega arith, omega arith, omega arith), tt)),
      ),
    )
