-- ===== src/ZeroMq.antt =====
-- src/input/zmq.rs: the subscriber, as a function of what happens to its socket and to the channel.
pub mod Laws
use wazuh_ocsf_etl.Base.{
  ℕ, String, List, [], ◌∷◌, ◌++◌, Bool, true, false, ◌&&◌, Option, none, some, if◌then◌else◌,
  is_empty, trim,
}

-- Where the task is: in the outer loop, which connects and subscribes, in the inner one, which receives, or
-- behind its `return`.
pub data Phase : Type 0 where
  connecting receiving ended : Phase

pub record Subscriber : Type 0 where
  pub phase : Phase
  pub sent : List (ℕ × String)

-- What may happen: a pass of the outer loop, with whether `connect` and `subscribe` succeed, a timeout or an
-- error of `recv`, and a message. A frame is its text, or none if it is not UTF-8; the Boolean says whether
-- the channel still takes lines (`up`).
pub data Happening : Type 0 where
  attempt : Bool → Bool → Happening
  timed_out broken : Happening
  message : List (Option String) → Bool → Happening

abbrev later : Option String → Option String → Option String
later none frame = frame
later (some text) frame = some text

-- `iter().rev().find_map(…)`: the last frame that is text
unfoldable pub last_text : List (Option String) → Option String
last_text [] = none
last_text (frame ∷ frames) = later (last_text frames) frame

abbrev pub or_empty : Option String → String
or_empty none = ""
or_empty (some text) = text

-- `trimmed`
unfoldable pub payload : List (Option String) → String
unfolding last_text
payload frames = trim (or_empty (last_text frames))

-- `tx.send((0, trimmed))`; the task ends if the receiver is gone.
unfoldable pub deliver : String → Bool → Subscriber → Subscriber
deliver text true s = record s { sent = s.sent ++ (0, text) ∷ [] }
deliver text false s = record s { phase = ended }

unfoldable pub receive : List (Option String) → Bool → Subscriber → Subscriber
unfolding deliver
receive frames up s = if is_empty (payload frames) then s else deliver (payload frames) up s

-- One step in a phase; what cannot happen in it changes nothing.
unfoldable pub react : Phase → Happening → Subscriber → Subscriber
react connecting (attempt connects subscribes) s =
    if connects && subscribes then record s { phase = receiving } else s
react receiving timed_out s = record s { phase = connecting }
react receiving broken s = record s { phase = connecting }
react receiving (message frames up) s = receive frames up s
react _ _ s = s

unfoldable pub subscribe : List Happening → Subscriber → Subscriber
subscribe [] s = s
subscribe (h ∷ happenings) s = subscribe happenings (react s.phase h s)
