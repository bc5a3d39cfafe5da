-- ===== src/Api/LoginRate.antt =====
-- internal/api/loginrate.go, and the start of `handleLogin` in auth.go, which uses it. A time is a
-- number of nanoseconds, and is not before the end of the first window, so that the cutoff is one too.
pub mod Fails
pub mod Guard
mod Samples
use edge_caddy.Prelude.{
  ℕ, zero, suc, ◌+◌, ◌-◌, ◌*◌, Bool, true, false, ◌||◌, String, Option, none, some, List, [], ◌∷◌,
  ◌++◌, ltb, leb, if◌then◌else◌, length,
}
use edge_caddy.Prelude.Assoc.{Assoc, lookup, insert, delete}

abbrev pub login_max_fails : ℕ
login_max_fails = 5

abbrev pub login_window : ℕ
login_window = 15 * 60 * 1000000000

-- `fails`, with the bounds of the limiter.
pub record LoginLimiter : Type 0 where
  pub fails : Assoc (List ℕ)
  pub max_n : ℕ
  pub window : ℕ

-- `newLoginLimiter`
unfoldable pub new_login_limiter : LoginLimiter
new_login_limiter = record { fails = []; max_n = login_max_fails; window = login_window }

abbrev pub times : Option (List ℕ) → List ℕ
times none = []
times (some ts) = ts

-- The loop of `recent`.
unfoldable pub after_cutoff : ℕ → List ℕ → List ℕ
after_cutoff cutoff [] = []
after_cutoff cutoff (t ∷ ts) =
    let kept = after_cutoff cutoff ts in if ltb cutoff t then t ∷ kept else kept

-- `recent`: an entry that is empty is deleted.
unfoldable pub store_recent : String → List ℕ → Assoc (List ℕ) → Assoc (List ℕ)
store_recent k [] fails = delete k fails
store_recent k (t ∷ ts) fails = insert k (t ∷ ts) fails

unfoldable pub recent : String → ℕ → Assoc (List ℕ) → Assoc (List ℕ) × List ℕ
unfolding after_cutoff store_recent
recent k cutoff fails =
    let kept = after_cutoff cutoff (times (lookup k fails)) in (store_recent k kept fails, kept)

-- The loop of `blocked`, which ends with the first key that has too many failures.
unfoldable pub blocked_keys : ℕ → ℕ → List String → Assoc (List ℕ) → Assoc (List ℕ) × Bool
unfolding recent
blocked_keys max_n cutoff [] fails = (fails, false)
blocked_keys max_n cutoff (k ∷ ks) fails =
    let (trimmed, kept) = recent k cutoff fails in
    let later = blocked_keys max_n cutoff ks trimmed in
    if leb max_n (length kept) then (trimmed, true) else later

-- `blocked`
unfoldable pub blocked : ℕ → List String → LoginLimiter → LoginLimiter × Bool
unfolding blocked_keys
blocked now ks l =
    let (fails, is_blocked) = blocked_keys l.max_n (now - l.window) ks l.fails in
    (record l { fails = fails }, is_blocked)

-- The loop of `fail`.
unfoldable pub fail_keys : ℕ → ℕ → List String → Assoc (List ℕ) → Assoc (List ℕ)
unfolding recent
fail_keys now cutoff [] fails = fails
fail_keys now cutoff (k ∷ ks) fails =
    let (trimmed, kept) = recent k cutoff fails in
    fail_keys now cutoff ks (insert k (kept ++ now ∷ []) trimmed)

-- `fail`
unfoldable pub fail : ℕ → List String → LoginLimiter → LoginLimiter
unfolding fail_keys
fail now ks l = record l { fails = fail_keys now (now - l.window) ks l.fails }

-- `succeed`
unfoldable pub succeed : String → LoginLimiter → LoginLimiter
succeed user_key l = record l { fails = delete user_key l.fails }

pub data LoginReply : Type 0 where
  rate_limited wrong_password accepted : LoginReply

-- The limiter with the attempts of one address that were not blocked and whose passwords are being
-- checked, without a lock: the keys of the users that they name.
pub record Logins : Type 0 where
  pub limiter : LoginLimiter
  pub checking : List String

-- An attempt for a user arrives at a time; or the password of one of those that are being checked, by
-- its place, is found right or wrong.
pub data LoginEvent : Type 0 where
  arrives : ℕ → String → LoginEvent
  verified : ℕ → ℕ → Bool → LoginEvent

unfoldable pub take_nth : ℕ → List String → Option (String × List String)
take_nth n [] = none
take_nth zero (u ∷ us) = some (u, us)
take_nth (suc n) (u ∷ us) = elim (take_nth n us) [
  | none ↦ none
  | some found ↦ some (found.0, u ∷ found.1)
]

abbrev pub after_block : String → Logins → LoginLimiter × Bool → Logins × Option LoginReply
after_block user d (l, is_blocked) =
    if is_blocked
    then (record d { limiter = l }, some rate_limited)
    else (record { limiter = l; checking = user ∷ d.checking }, none)

abbrev pub after_password :
    ℕ → String → Bool → Option (String × List String) → Logins → Logins × Option LoginReply
after_password now ip verifies none d = (d, none)
after_password now ip verifies (some (user, rest)) d =
    if verifies
    then (record { limiter = succeed user d.limiter; checking = rest }, some accepted)
    else (
      record { limiter = fail now (ip ∷ user ∷ []) d.limiter; checking = rest },
      some wrong_password,
    )

-- `handleLogin`, up to the session, of the attempts from one address.
unfoldable pub login_step : String → LoginEvent → Logins → Logins × Option LoginReply
unfolding blocked fail succeed take_nth
login_step ip (arrives now user) d = after_block user d (blocked now (ip ∷ user ∷ []) d.limiter)
login_step ip (verified now nth verifies) d =
    after_password now ip verifies (take_nth nth d.checking) d
