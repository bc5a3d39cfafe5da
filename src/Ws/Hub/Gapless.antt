-- ===== src/Ws/Hub/Gapless.antt =====
-- What a client can read has no gap.
use edge_caddy.Prelude.{
  ℕ, ◌≤◌, Bool, true, false, String, Option, none, some, List, [], ◌∷◌, ◌++◌, length, length-append,
  ltb, ltb→lt, ◌≡◌, refl, sym, ap, ◌∙◌, ◌==◌, if◌then◌else◌, arith,
}
use mathlib.Core.List.{append_assoc}
use edge_caddy.Ws.Hub.{
  client_buffer, Client, Hub, no_clients, shut, send_frame, first_taken, take_frame, Event,
  subscribed, unsubscribed, broadcast, all_closed, frame_taken, new_client, client_step, run,
}

-- The frames that were broadcast since the client of a number subscribed; `none` before.
abbrev pub sent_step : Event → ℕ → Option (List String) → Option (List String)
sent_step (subscribed i) id none = if i == id then some [] else none
sent_step (broadcast (some frame)) id (some sent) = some (sent ++ frame ∷ [])
sent_step _ id sent = sent

abbrev pub sent_since : List Event → ℕ → Option (List String) → Option (List String)
sent_since [] id sent = sent
sent_since (e ∷ es) id sent = sent_since es id (sent_step e id sent)

-- What the client took, what it can still take, and what it will not get make up what was sent; as
-- long as it is open, it will get everything.
abbrev pub IsGapless : List String → Client → Type 0
IsGapless sent c =
    (length c.buffered ≤ client_buffer)
    × ((lost : List String) × ((sent ≡ c.taken ++ c.buffered ++ lost)
          × (c.is_open ≡ true → lost ≡ [])))

pub data Follows : Option Client → Option (List String) → Type 0 where
  not_yet : Follows none none
  follows : {c : Client} {sent : List String} → IsGapless sent c → Follows (some c) (some sent)

two_values : true ≡ false → ⊥
two_values h = cc

shut-IsGapless : (sent : List String) (c : Client) → IsGapless sent c → IsGapless sent (shut c)
shut-IsGapless sent c (bound, (lost, (all, open_all))) = (bound, (lost, (all, λ h. cc)))

take_frame-IsGapless :
    (sent : List String) (c : Client) → IsGapless sent c → IsGapless sent (take_frame c)
take_frame-IsGapless sent c (bound, (lost, (all, open_all))) = by_buffer c.buffered refl
  where
    by_buffer : (b : List String) → c.buffered ≡ b → IsGapless sent (first_taken b c)
    by_buffer [] e = (bound, (lost, (all, open_all)))
    by_buffer (x ∷ rest) e = (
      omega (arith, bound, ap length e),
      (lost, (all ∙ ap (λ b. c.taken ++ b ++ lost) e ∙ simp (append_assoc {0}), open_all)),
    )

send_frame-IsGapless :
    (frame : String) (sent : List String) (c : Client)
    → IsGapless sent c
    → IsGapless (sent ++ frame ∷ []) (send_frame frame c)
unfolding send_frame
send_frame-IsGapless frame sent c (bound, (lost, (all, open_all))) =
    by_tests c.is_open (ltb (length c.buffered) client_buffer) refl refl
  where
    more : List String
    more = lost ++ frame ∷ []

    unsent : sent ++ frame ∷ [] ≡ c.taken ++ c.buffered ++ (lost ++ frame ∷ [])
    unsent = ap (λ l. l ++ frame ∷ []) all ∙ simp (append_assoc {0})

    sent_now : lost ≡ [] → sent ++ frame ∷ [] ≡ c.taken ++ (c.buffered ++ frame ∷ []) ++ []
    sent_now none_lost =
        unsent
        ∙ ap (λ l. c.taken ++ c.buffered ++ (l ++ frame ∷ [])) none_lost
        ∙ simp (append_assoc {0})

    by_tests :
        (alive room : Bool)
        → c.is_open ≡ alive
        → ltb (length c.buffered) client_buffer ≡ room
        → IsGapless (sent ++ frame ∷ []) (
            if alive
            then if room then record c { buffered = c.buffered ++ frame ∷ [] } else shut c
            else c)
    by_tests true true alive room = (
      omega (
        arith,
        length-append c.buffered (frame ∷ []),
        ltb→lt (length c.buffered) client_buffer room,
      ),
      ([], (sent_now (open_all alive), λ h. refl)),
    )
    by_tests true false alive full = (bound, (more, (unsent, λ h. cc)))
    by_tests false room shut_before k =
        (bound, (more, (unsent, λ h. absurd (two_values (sym h ∙ shut_before)))))

if_changed :
    {c d : Option Client} {sent : Option (List String)} (b : Bool)
    → Follows d sent
    → Follows c sent
    → Follows (if b then d else c) sent
if_changed true changed same = changed
if_changed false changed same = same

client_step-Follows :
    (e : Event) (id : ℕ) (c : Option Client) (sent : Option (List String))
    → Follows c sent
    → Follows (client_step e id c) (sent_step e id sent)
unfolding client_step
client_step-Follows (subscribed i) id _ _ not_yet = by_id (i == id)
  where
    by_id : (b : Bool) → Follows (if b then new_client none else none) (if b then some [] else none)
    by_id true = follows (omega arith, ([], (refl, λ h. refl)))
    by_id false = not_yet
client_step-Follows (subscribed i) id _ _ (follows {c} {sent} good) = by_id (i == id)
  where
    by_id : (b : Bool) → Follows (if b then new_client (some c) else some c) (some sent)
    by_id true = follows good
    by_id false = follows good
client_step-Follows (unsubscribed i) id _ _ not_yet = if_changed (i == id) not_yet not_yet
client_step-Follows (unsubscribed i) id _ _ (follows {c} {sent} good) =
    if_changed (i == id) (follows (shut-IsGapless sent c good)) (follows good)
client_step-Follows (broadcast none) id c sent h = h
client_step-Follows (broadcast (some frame)) id _ _ not_yet = not_yet
client_step-Follows (broadcast (some frame)) id _ _ (follows {c} {sent} good) =
    follows (send_frame-IsGapless frame sent c good)
client_step-Follows all_closed id _ _ not_yet = not_yet
client_step-Follows all_closed id _ _ (follows {c} {sent} good) =
    follows (shut-IsGapless sent c good)
client_step-Follows (frame_taken i) id _ _ not_yet = if_changed (i == id) not_yet not_yet
client_step-Follows (frame_taken i) id _ _ (follows {c} {sent} good) =
    if_changed (i == id) (follows (take_frame-IsGapless sent c good)) (follows good)

run-Follows :
    (es : List Event) (h : Hub) (id : ℕ) (sent : Option (List String))
    → Follows (h id) sent
    → Follows (run es h id) (sent_since es id sent)
unfolding run
run-Follows [] h id sent good = good
run-Follows (e ∷ es) h id sent good =
    run-Follows es (λ i. client_step e i (h i)) id (sent_step e id sent)
      (client_step-Follows e id (h id) sent good)

-- Whatever order clients come and go in, frames are broadcast and taken off the channels, from a hub
-- without clients: a number has a client exactly if it has subscribed, its channel has 64 frames at
-- most, and the frames that it took and those in the channel are, in order and without a gap, the first
-- of those broadcast since it subscribed, and all of them as long as the channel is open.
pub run-no_clients-Follows :
    (es : List Event) (id : ℕ) → Follows (run es no_clients id) (sent_since es id none)
run-no_clients-Follows es id = run-Follows es no_clients id none not_yet
