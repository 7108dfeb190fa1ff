-- ===== src/ZeroMq/Laws.antt =====
-- src/input/zmq.rs: what the subscriber sends.
use wazuh_ocsf_etl.Base.{
  ℕ, String, List, [], ◌∷◌, ◌++◌, Bool, true, false, not, ◌&&◌, Option, ◌≡◌, refl, ap, ◌∙◌, if-both,
  is_empty, trim, trim_matches_idem, is_whitespace, All, All-append, Bool-cases, inl, inr,
}
use wazuh_ocsf_etl.ZeroMq.{
  Phase, connecting, receiving, ended, Subscriber, Happening, attempt, timed_out, broken, message,
  or_empty, last_text, payload, deliver, receive, react, subscribe,
}

-- A line as the loop takes it: at offset 0, trimmed, and not blank
pub record IsLine (line : ℕ × String) : Type 0 where
  pub no_offset : line.0 ≡ 0
  pub trimmed : trim line.1 ≡ line.1
  pub text : is_empty line.1 ≡ false

payload_trimmed : (frames : List (Option String)) → trim (payload frames) ≡ payload frames
unfolding payload trim
payload_trimmed frames = trim_matches_idem is_whitespace (or_empty (last_text frames))

deliver-SendsLines :
    (text : String) (up : Bool) (s : Subscriber)
    → IsLine (0, text)
    → All IsLine s.sent
    → All IsLine (deliver text up s).sent
unfolding deliver
deliver-SendsLines text true s line h = All-append IsLine s.sent _ h (line, tt)
deliver-SendsLines text false s line h = h

receive-SendsLines :
    (frames : List (Option String)) (up : Bool) (s : Subscriber)
    → All IsLine s.sent
    → All IsLine (receive frames up s).sent
unfolding receive
receive-SendsLines frames up s h = elim (Bool-cases (is_empty (payload frames))) [
  | inl blank ↦ rw blank h
  | inr text ↦ rw text (
      deliver-SendsLines (payload frames) up s
        (record { no_offset = refl; trimmed = payload_trimmed frames; text = text }) h)
]

react-SendsLines :
    (p : Phase) (h : Happening) (s : Subscriber) → All IsLine s.sent → All IsLine (react p h s).sent
unfolding react
react-SendsLines connecting (attempt connects subscribes) s k =
    if-both (λ (r : Subscriber). All IsLine r.sent) (connects && subscribes) k k
react-SendsLines receiving timed_out s k = k
react-SendsLines receiving broken s k = k
react-SendsLines receiving (message frames up) s k = receive-SendsLines frames up s k
react-SendsLines connecting timed_out s k = k
react-SendsLines connecting broken s k = k
react-SendsLines connecting (message frames up) s k = k
react-SendsLines receiving (attempt connects subscribes) s k = k
react-SendsLines ended h s k = k

-- Whatever happens to the socket and the channel, every line that is sent has the offset 0, is trimmed, and
-- is not blank, if this holds of those that were sent before.
pub subscribe-IsLine :
    (happenings : List Happening) (s : Subscriber)
    → All IsLine s.sent
    → All IsLine (subscribe happenings s).sent
unfolding subscribe
subscribe-IsLine [] s h = h
subscribe-IsLine (e ∷ happenings) s h =
    subscribe-IsLine happenings (react s.phase e s) (react-SendsLines s.phase e s h)

-- A timeout, an error, or an attempt that does not succeed
abbrev pub is_failure : Happening → Bool
is_failure (attempt connects subscribes) = not (connects && subscribes)
is_failure timed_out = true
is_failure broken = true
is_failure (message frames up) = false

abbrev pub is_live : Phase → Bool
is_live connecting = true
is_live receiving = true
is_live ended = false

record IsWaiting (s r : Subscriber) : Type 0 where
  live : is_live r.phase ≡ true
  unsent : r.sent ≡ s.sent

react-IsWaiting :
    (p : Phase) (h : Happening) (s : Subscriber)
    → s.phase ≡ p
    → is_live p ≡ true
    → is_failure h ≡ true
    → IsWaiting s (react p h s)
unfolding react
react-IsWaiting connecting (attempt connects subscribes) s e live failure =
    if-both (IsWaiting s) (connects && subscribes) (record { live = refl; unsent = refl })
      (record { live = ap is_live e; unsent = refl })
react-IsWaiting receiving timed_out s e live failure = record { live = refl; unsent = refl }
react-IsWaiting receiving broken s e live failure = record { live = refl; unsent = refl }
react-IsWaiting receiving (message frames up) s e live failure = cc
react-IsWaiting connecting timed_out s e live failure = record {
  live = ap is_live e;
  unsent = refl;
}
react-IsWaiting connecting broken s e live failure = record { live = ap is_live e; unsent = refl }
react-IsWaiting connecting (message frames up) s e live failure = cc
react-IsWaiting receiving (attempt connects subscribes) s e live failure = record {
  live = ap is_live e;
  unsent = refl;
}
react-IsWaiting ended h s e live failure = cc

connected :
    (p : Phase) (s : Subscriber)
    → s.phase ≡ p
    → is_live p ≡ true
    → ((react p (attempt true true) s).phase ≡ receiving)
      × ((react p (attempt true true) s).sent ≡ s.sent)
unfolding react
connected connecting s e live = (refl, refl)
connected receiving s e live = (e, refl)
connected ended s e live = cc

delivered :
    (frames : List (Option String)) (p : Phase) (s : Subscriber)
    → p ≡ receiving
    → is_empty (payload frames) ≡ false
    → (react p (message frames true) s).sent ≡ s.sent ++ (0, payload frames) ∷ []
unfolding react receive deliver
delivered frames connecting s e text = cc
delivered frames receiving s e text = simp text refl
delivered frames ended s e text = cc

-- After any number of timeouts, errors and attempts that fail, an attempt that succeeds and a message whose
-- last text frame is not blank send that text, trimmed, and nothing else: no failure ends the subscriber.
pub subscribe_after_failures :
    (failures : List Happening) (frames : List (Option String)) (s : Subscriber)
    → All (λ h. is_failure h ≡ true) failures
    → is_live s.phase ≡ true
    → is_empty (payload frames) ≡ false
    → (subscribe (failures ++ attempt true true ∷ message frames true ∷ []) s).sent
      ≡ s.sent ++ (0, payload frames) ∷ []
unfolding subscribe
subscribe_after_failures [] frames s _ live text =
    let (phase, unsent) = connected s.phase s refl live in
    delivered frames _ (react s.phase (attempt true true) s) phase text
    ∙ ap (λ l. l ++ (0, payload frames) ∷ []) unsent
subscribe_after_failures (h ∷ failures) frames s (failure, rest) live text =
    let w = react-IsWaiting s.phase h s refl live failure in
    subscribe_after_failures failures frames (react s.phase h s) rest w.live text
    ∙ ap (λ l. l ++ (0, payload frames) ∷ []) w.unsent
