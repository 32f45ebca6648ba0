-- ===== src/Events/Listener/Acts.antt =====
-- What a list of acts holds of another one.
use mathlib.Core.List.{Memᴰ}
use kvsynk8s.Base.{refl, List, [], ◌∷◌, All}
use kvsynk8s.Api.{SecretSync}
use kvsynk8s.Events.Listener.{QueueMessage}
use kvsynk8s.Events.Listener.Log.{Act, taken, sent, takes, sends}

-- every act of the one is an act of the other
abbrev pub Within : List Act → List Act → Type 0
Within xs ys = (a : Act) → Memᴰ a xs → Memᴰ a ys

pub sends-Within : (xs : List SecretSync) (acts : List Act) → Within acts (sends xs acts)
sends-Within [] acts a m = m
sends-Within (x ∷ xs) acts a m = sends-Within xs (sent x ∷ acts) a (Memᴰ.tail m)

-- each of the messages came from the queue
abbrev pub AllTaken : List QueueMessage → List Act → Type 0
AllTaken ms acts = All (λ m. Memᴰ (taken m) acts) ms

pub takes-Within : (ms : List QueueMessage) (acts : List Act) → Within acts (takes ms acts)
takes-Within [] acts a t = t
takes-Within (m ∷ ms) acts a t = Memᴰ.tail (takes-Within ms acts a t)

pub AllTaken-Within :
    (ms : List QueueMessage) (acts more : List Act)
    → Within acts more
    → AllTaken ms acts
    → AllTaken ms more
AllTaken-Within [] acts more w h = tt
AllTaken-Within (m ∷ ms) acts more w (t, h) = (w (taken m) t, AllTaken-Within ms acts more w h)

pub takes-AllTaken : (ms : List QueueMessage) (acts : List Act) → AllTaken ms (takes ms acts)
takes-AllTaken [] acts = tt
takes-AllTaken (m ∷ ms) acts = (
  Memᴰ.head refl,
  AllTaken-Within ms (takes ms acts) (taken m ∷ takes ms acts) (λ a t. Memᴰ.tail t)
      (takes-AllTaken ms acts),
)
