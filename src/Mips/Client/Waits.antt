-- ===== src/Mips/Client/Waits.antt =====
-- mips_client.go: a request that waits, while others are sent, answered and given up.
use go_mihome.Common.{
  ℕ, suc, ◌+◌, ◌%◌, ◌≤◌, ◌<◌, ◌≡◌, ◌≢◌, ◌⊎◌, refl, sym, subst, ap, ◌∙◌, List, [], ◌∷◌, Option, none,
  some, not, arith, All, inl, inr, Bool-cases, Option-cases,
}
use go_mihome.Common.Result.{ok, err, Fault, fault, invalid_argument, Result-cases}
use go_mihome.Common.Bytes.{Bytes}
use go_mihome.Mips.Message.{Message, is_empty}
use go_mihome.Mips.Client.{
  MipsBaseConfig, MipsClient, find_pending, remove_pending, put_pending, decode_message,
  ensure_reply_subscription, send_request, request, delete_pending, handle_reply, Event, requested,
  replied, abandoned, history,
}

pub find-remove :
    (i j : ℕ) (m : List (ℕ × ℕ)) → i ≢ j → find_pending i (remove_pending j m) ≡ find_pending i m
unfolding find_pending remove_pending
find-remove i j [] h = refl
find-remove i j ((k, t) ∷ m) h = ground (arith, find-remove i j m h)

pub find-remove_self : (i : ℕ) (m : List (ℕ × ℕ)) → find_pending i (remove_pending i m) ≡ none
unfolding find_pending remove_pending
find-remove_self i [] = refl
find-remove_self i ((k, t) ∷ m) = ground (arith, find-remove_self i m)

pub find-put :
    (i j t : ℕ) (m : List (ℕ × ℕ)) → i ≢ j → find_pending i (put_pending j t m) ≡ find_pending i m
unfolding find_pending
find-put i j t m h = ground (arith, find-remove i j m h)

pub find-put_self : (i t : ℕ) (m : List (ℕ × ℕ)) → find_pending i (put_pending i t m) ≡ some t
unfolding find_pending
find-put_self i t m = ground arith

-- The request with the identifier id waits with its ticket, and k requests have been sent since.
pub record Waits (cfg : MipsBaseConfig) (id ticket k : ℕ) (c : MipsClient) : Type 0 where
  pub same : c.config ≡ cfg
  pub found : find_pending id c.pending ≡ some ticket
  pub next : c.next_id ≡ (id + 1 + k) % 4294967296

-- The event neither answers nor gives up the request with this identifier.
abbrev pub Spares : MipsBaseConfig → ℕ → Event → Type 0
Spares cfg id (requested ticket msg refused) = Unit
Spares cfg id (replied payload) =
    (m : Message) → decode_message cfg payload ≡ some (ok m) → m.id ≢ id
Spares cfg id (abandoned j) = j ≢ id

-- The number of requests among the events.
abbrev pub requests : List Event → ℕ
requests [] = 0
requests (requested ticket msg refused ∷ es) = suc (requests es)
requests (replied payload ∷ es) = requests es
requests (abandoned id ∷ es) = requests es

pub Waits-send :
    (cfg : MipsBaseConfig) (id ticket k t : ℕ) (msg : Message) (c : MipsClient)
    → id < 4294967296
    → k + 1 < 4294967296
    → Waits cfg id ticket k c
    → Waits cfg id ticket (k + 1) (send_request t msg c).0
unfolding send_request
Waits-send cfg id ticket k t msg c h l w =
    let next = w.next in
    record {
      same = w.same;
      found = find-put id c.next_id t c.pending (λ e. omega arith) ∙ w.found;
      next = omega arith;
    }

-- The reply subscription touches nothing else.
pub ensure_lem :
    (refused : Option Fault) (c : MipsClient)
    → let d = (ensure_reply_subscription refused c).0 in
      (d.config ≡ c.config) × (d.pending ≡ c.pending) × (d.next_id ≡ c.next_id)
unfolding ensure_reply_subscription
ensure_lem none c = (ground arith, ground arith, ground arith)
ensure_lem (some e) c = (ground arith, ground arith, ground arith)

pub Waits-ensure :
    (cfg : MipsBaseConfig) (id ticket k : ℕ) (refused : Option Fault) (c : MipsClient)
    → Waits cfg id ticket k c
    → Waits cfg id ticket k (ensure_reply_subscription refused c).0
Waits-ensure cfg id ticket k refused c w =
    let (a, b, n) = ensure_lem refused c in
    record { same = a ∙ w.same; found = ap (find_pending id) b ∙ w.found; next = n ∙ w.next }

-- Request ends in one of these ways: it is refused, or it sends.
pub request_cases :
    (t : ℕ) (msg : Message) (refused : Option Fault) (c : MipsClient)
    → let d = (ensure_reply_subscription refused c).0 in
      (((request t msg refused c).0 ≡ c) × ((x : Fault) × ((request t msg refused c).1 ≡ err x)))
      ⊎ ((((request t msg refused c).0 ≡ d) × ((x : Fault) × ((request t msg refused c).1 ≡ err x)))
          ⊎ (((request t msg refused c).0 ≡ (send_request t msg d).0)
              × ((request t msg refused c).1
                  ≡ ok ((send_request t msg d).1, (send_request t msg d).2))))
unfolding request
request_cases t msg refused c = elim (Bool-cases (not c.has_mqtt)) [
  | inl a ↦
      inl (rw (a, request), (fault invalid_argument "mips request" "mqtt is nil", rw (a, request)))
  | inr a ↦ elim (Bool-cases (is_empty c.config.reply_topic)) [
    | inl b ↦ inl (
      rw (a, request, b),
      (fault invalid_argument "mips request" "reply topic is empty", rw (a, request, b)),
    )
    | inr b ↦ elim (Option-cases (ensure_reply_subscription refused c).1) [
      | inl e ↦ inr (inr (rw (a, request, b, e), rw (a, request, b, e)))
      | inr (x, e) ↦ inr (inl (rw (a, request, b, e), (x, rw (a, request, b, e))))
    ]
  ]
]

-- A request that is refused leaves the others as they are, and takes no identifier.
pub Waits-request :
    (cfg : MipsBaseConfig) (id ticket k t : ℕ) (msg : Message) (refused : Option Fault)
    (c : MipsClient)
    → id < 4294967296
    → k + 1 < 4294967296
    → Waits cfg id ticket k c
    → (j : ℕ) × (j ≤ k + 1) × Waits cfg id ticket j (request t msg refused c).0
Waits-request cfg id ticket k t msg refused c h l w =
    let d = (ensure_reply_subscription refused c).0 in
    let v = Waits-ensure cfg id ticket k refused c w in
    elim (request_cases t msg refused c) [
      | inl (e, _) ↦ (k, omega arith, subst (Waits cfg id ticket k) (sym e) w)
      | inr (inl (e, _)) ↦ (k, omega arith, subst (Waits cfg id ticket k) (sym e) v)
      | inr (inr (e, _)) ↦ (
        k + 1,
        omega arith,
        subst (Waits cfg id ticket (k + 1)) (sym e) (Waits-send cfg id ticket k t msg d h l v),
      )
    ]

pub Waits-delete :
    (cfg : MipsBaseConfig) (id ticket k j : ℕ) (c : MipsClient)
    → j ≢ id
    → Waits cfg id ticket k c
    → Waits cfg id ticket k (delete_pending j c)
unfolding delete_pending
Waits-delete cfg id ticket k j c h w = record {
  same = w.same;
  found = find-remove id j c.pending (λ e. h (sym e)) ∙ w.found;
  next = w.next;
}

pub Waits-reply :
    (cfg : MipsBaseConfig) (id ticket k : ℕ) (p : Bytes) (c : MipsClient)
    → Spares cfg id (replied p)
    → Waits cfg id ticket k c
    → Waits cfg id ticket k (handle_reply p c).0
unfolding handle_reply
Waits-reply cfg id ticket k p c h w = elim (Option-cases (decode_message c.config p)) [
  | inl e ↦ rw (e, handle_reply) w
  | inr (r, e) ↦ elim (Result-cases r) [
    | inr (x, f) ↦
        let read : decode_message c.config p ≡ some (err x) = e ∙ ap some f in
        rw (read, handle_reply) w
    | inl (m, f) ↦
        let read : decode_message c.config p ≡ some (ok m) = e ∙ ap some f in
        let other = h m (ap (λ x. decode_message x p) (sym w.same) ∙ read) in
        rw (read, handle_reply) (Waits-delete cfg id ticket k m.id c other w)
  ]
]

pub Waits-history :
    (cfg : MipsBaseConfig) (id ticket k : ℕ) (es : List Event) (c : MipsClient)
    → id < 4294967296
    → k + requests es < 4294967296
    → All (Spares cfg id) es
    → Waits cfg id ticket k c
    → (j : ℕ) × Waits cfg id ticket j (history es c)
unfolding history
Waits-history cfg id ticket k [] c h l s w = (k, w)
Waits-history cfg id ticket k (requested t msg refused ∷ es) c h l s w =
    let (j, le, v) = Waits-request cfg id ticket k t msg refused c h (omega arith) w in
    Waits-history cfg id ticket j es (request t msg refused c).0 h (omega arith) s.1 v
Waits-history cfg id ticket k (replied p ∷ es) c h l s w =
    Waits-history cfg id ticket k es (handle_reply p c).0 h l s.1
      (Waits-reply cfg id ticket k p c s.0 w)
Waits-history cfg id ticket k (abandoned i ∷ es) c h l s w =
    Waits-history cfg id ticket k es (delete_pending i c) h l s.1
      (Waits-delete cfg id ticket k i c s.0 w)
