-- ===== src/Ws/Hub.antt =====
-- internal/ws/hub.go: the clients of the hub and their channels. A client has a number, and the frames
-- that its handler took off the channel are kept beside.
pub mod Gapless
mod Samples
use edge_caddy.Prelude.{
  ℕ, Bool, true, false, String, Option, none, some, List, [], ◌∷◌, ◌++◌, length, ltb, ◌==◌,
  if◌then◌else◌,
}

-- `clientBuffer`
abbrev pub client_buffer : ℕ
client_buffer = 64

-- A client is in the map as long as its channel is open. What is buffered can be read after that.
pub record Client : Type 0 where
  pub is_open : Bool
  pub buffered : List String
  pub taken : List String

abbrev pub Hub : Type 0
Hub = ℕ → Option Client

abbrev pub no_clients : Hub
no_clients id = none

abbrev pub shut : Client → Client
shut c = record c { is_open = false }

-- `Broadcast`, to one client: a full channel is closed.
unfoldable pub send_frame : String → Client → Client
send_frame frame c =
    if c.is_open
    then if ltb (length c.buffered) client_buffer
      then record c { buffered = c.buffered ++ frame ∷ [] }
      else shut c
    else c

abbrev pub first_taken : List String → Client → Client
first_taken [] c = c
first_taken (frame ∷ rest) c = record c { buffered = rest; taken = c.taken ++ frame ∷ [] }

-- The handler takes a frame off the channel, if there is one.
abbrev pub take_frame : Client → Client
take_frame c = first_taken c.buffered c

-- `Subscribe`, the function that it returns, `Broadcast` of what could be encoded, or of what could not,
-- `CloseAll`, and the handler of a client.
pub data Event : Type 0 where
  subscribed : ℕ → Event
  unsubscribed : ℕ → Event
  broadcast : Option String → Event
  all_closed : Event
  frame_taken : ℕ → Event

abbrev change : (Client → Client) → Option Client → Option Client
change f none = none
change f (some c) = some (f c)

-- A number that is taken is not given again.
abbrev pub new_client : Option Client → Option Client
new_client none = some (record { is_open = true; buffered = []; taken = [] })
new_client (some c) = some c

-- What happens to the client of a number.
unfoldable pub client_step : Event → ℕ → Option Client → Option Client
unfolding send_frame
client_step (subscribed i) id c = if i == id then new_client c else c
client_step (unsubscribed i) id c = if i == id then change shut c else c
client_step (broadcast none) id c = c
client_step (broadcast (some frame)) id c = change (send_frame frame) c
client_step all_closed id c = change shut c
client_step (frame_taken i) id c = if i == id then change take_frame c else c

unfoldable pub run : List Event → Hub → Hub
unfolding client_step
run [] h = h
run (e ∷ es) h = run es (λ id. client_step e id (h id))
