-- ===== src/Mqtt/Conn/State.antt =====
-- mqtt.go: what the subscribers of the connection's state are told.
use go_mihome.Common.{
  ℕ, ◌≡◌, refl, ap, ◌∙◌, List, [], ◌∷◌, ◌++◌, Bool, true, false, ◌||◌, ◌==◌, if◌then◌else◌,
  Bool-cases, inl, inr,
}
use go_mihome.Mqtt.Conn.{PahoMqttConn, StateCall, call_all, same, close, set_connection_state}

-- The subscriber is registered.
abbrev pub registered : ℕ → List ℕ → Bool
registered id [] = false
registered id (i ∷ is) = i == id || registered id is

-- What the subscriber knows that has believed b before the calls.
abbrev pub believed : ℕ → Bool → List StateCall → Bool
believed id b [] = b
believed id b (c ∷ cs) = believed id (if c.id == id then c.up else b) cs

believed-call_all :
    (id : ℕ) (b up : Bool) (ids : List ℕ)
    → believed id b (call_all ids up) ≡ (if registered id ids then up else b)
believed-call_all id b up [] = refl
believed-call_all id b up (i ∷ is) =
    believed-call_all id (if i == id then up else b) up is ∙ either (i == id) (registered id is)
  where
    either : (t r : Bool) → (if r then up else (if t then up else b)) ≡ (if t || r then up else b)
    either true true = refl
    either true false = refl
    either false r = refl

-- The events that change the state of the connection.
pub data Event : Type 0 where
  went_up went_down shut : Event

unfoldable pub happen : Event → PahoMqttConn → PahoMqttConn × List StateCall
happen went_up c = set_connection_state true c
happen went_down c = set_connection_state false c
happen shut c = close c

unfoldable pub happen_all : List Event → PahoMqttConn → PahoMqttConn × List StateCall
unfolding happen
happen_all [] c = (c, [])
happen_all (e ∷ es) c =
    let (d, first) = happen e c in let (f, later) = happen_all es d in (f, first ++ later)

believed-append :
    (id : ℕ) (b : Bool) (xs ys : List StateCall)
    → believed id b (xs ++ ys) ≡ believed id (believed id b xs) ys
believed-append id b [] ys = refl
believed-append id b (c ∷ cs) ys = believed-append id (if c.id == id then c.up else b) cs ys

-- A registered subscriber that is right stays right.
abbrev Follows : ℕ → PahoMqttConn → PahoMqttConn × List StateCall → Type 0
Follows id c (d, calls) =
    (believed id c.connected calls ≡ d.connected) × (registered id d.state_subs ≡ true)

same_true : (a b : Bool) → same a b ≡ true → a ≡ b
same_true true true h = refl
same_true true false h = cc
same_true false true h = cc
same_true false false h = refl

told :
    (id : ℕ) (b up : Bool) (ids : List ℕ)
    → registered id ids ≡ true
    → believed id b (call_all ids up) ≡ up
told id b up ids r = believed-call_all id b up ids ∙ rw r

set-Follows :
    (id : ℕ) (up : Bool) (c : PahoMqttConn)
    → registered id c.state_subs ≡ true
    → Follows id c (set_connection_state up c)
unfolding set_connection_state
set-Follows id up c r = elim (Bool-cases (same c.connected up)) [
  | inl k ↦ rw k (refl, r)
  | inr k ↦ rw k (told id c.connected up c.state_subs r, r)
]

close-Follows :
    (id : ℕ) (c : PahoMqttConn) → registered id c.state_subs ≡ true → Follows id c (close c)
unfolding close
close-Follows id c r = (quiet c.connected, r)
  where
    quiet : (b : Bool) → believed id b (if b then call_all c.state_subs false else []) ≡ false
    quiet true = told id true false c.state_subs r
    quiet false = refl

happen-Follows :
    (id : ℕ) (e : Event) (c : PahoMqttConn)
    → registered id c.state_subs ≡ true
    → Follows id c (happen e c)
unfolding happen
happen-Follows id went_up c r = set-Follows id true c r
happen-Follows id went_down c r = set-Follows id false c r
happen-Follows id shut c r = close-Follows id c r

-- A subscriber of the connection's state that knew the state when the paho library began to report
-- connections that come up and go down, and methods began to close the connection, knows it afterwards from
-- the calls that it got.
pub calls_follow :
    (id : ℕ) (events : List Event) (c : PahoMqttConn)
    → registered id c.state_subs ≡ true
    → believed id c.connected (happen_all events c).1 ≡ (happen_all events c).0.connected
unfolding happen_all
calls_follow id [] c r = refl
calls_follow id (e ∷ es) c r =
    let (d, first) = happen e c in
    let (right, still) = happen-Follows id e c r in
    let later = (happen_all es d).1 in
    believed-append id c.connected first later
    ∙ ap (λ b. believed id b later) right
    ∙ calls_follow id es d still
