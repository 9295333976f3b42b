-- ===== src/Mqtt/Conn/Near.antt =====
-- mqtt.go: the topics at the broker and those with handlers, under each change of either.
use go_mihome.Common.{
  ℕ, ◌≡◌, refl, sym, ap, ◌∙◌, List, [], ◌∷◌, ◌++◌, Bool, true, false, ◌||◌, not, arith,
  if◌then◌else◌, Bool-cases, inl, inr,
}
use go_mihome.Common.Bytes.{Bytes, bytes_eq, bytes_eq_iff}
use go_mihome.Common.Dict.{Dict, insert, delete}
use go_mihome.Mqtt.Conn.{drop_topic, topics}
use go_mihome.Mqtt.Conn.Covered.{
  member, handled, handled-insert, handled-delete, member-drop, member-topics,
}
use go_mihome.Mqtt.Conn.Session.{
  Answer, accepted, refused, lost, carried_out, note, Gaps, IsNear, kept_if,
}

-- A new topic at the broker with its first handler.
pub Near-add :
    (topic : Bytes) (ids : List ℕ) (ts : List Bytes) (subs : Dict (List ℕ)) (g : Gaps)
    → IsNear ts subs g
    → IsNear (topic ∷ ts) (insert topic ids subs) g
Near-add topic ids ts subs g h = record {
  served = λ k e. ground (arith, handled-insert topic k ids subs, h.served k);
  wanted = λ k e. ground (arith, handled-insert topic k ids subs, h.wanted k);
}

-- The handlers of a topic that had some.
pub Near-set :
    (topic : Bytes) (ids : List ℕ) (ts : List Bytes) (subs : Dict (List ℕ)) (g : Gaps)
    → handled topic subs ≡ true
    → IsNear ts subs g
    → IsNear ts (insert topic ids subs) g
Near-set topic ids ts subs g old h = record {
  served = λ k e. h.served k (same k ∙ e);
  wanted = λ k e. elim (h.wanted k e) [ inl x ↦ inl (sym (same k) ∙ x) | inr x ↦ inr x ];
}
  where
    same : (k : Bytes) → handled k subs ≡ handled k (insert topic ids subs)
    same k = elim (Bool-cases (bytes_eq topic k)) [
      | inl e ↦
          ap (λ x. handled x subs) (sym ((bytes_eq_iff topic k).0 e))
          ∙ old
          ∙ sym (handled-insert topic k ids subs ∙ rw e)
      | inr e ↦ sym (handled-insert topic k ids subs ∙ rw e)
    ]

pub Near-note :
    (a : Answer) (topic : Bytes) (ts : List Bytes) (subs : Dict (List ℕ)) (g : Gaps)
    → IsNear ts subs g
    → IsNear ts subs (note a topic g)
Near-note accepted topic ts subs g h = h
Near-note refused topic ts subs g h = record {
  served = h.served;
  wanted = λ k e. ground (arith, h.wanted k);
}
Near-note lost topic ts subs g h = record {
  served = h.served;
  wanted = λ k e. ground (arith, h.wanted k);
}

-- A topic that has no handlers left and may be left at the broker.
pub Near-left :
    (topic : Bytes) (ts us : List Bytes) (subs left : Dict (List ℕ)) (g : Gaps)
    → ((k : Bytes) → bytes_eq topic k ≡ false → member k us ≡ member k ts)
    → ((k : Bytes) → handled k left ≡ (if bytes_eq topic k then false else handled k subs))
    → IsNear ts subs g
    → IsNear us left (record g { stale = topic ∷ g.stale })
Near-left topic ts us subs left g lists tables h = record {
  served = λ k e. elim (Bool-cases (bytes_eq topic k)) [
    | inl s ↦ absurd (let no : true ≡ false = sym e ∙ tables k ∙ rw s in ground arith)
    | inr s ↦
        let old : handled k subs ≡ true = sym (tables k ∙ rw s) ∙ e in
        elim (h.served k old) [ inl x ↦ inl (lists k s ∙ x) | inr x ↦ inr x ]
  ];
  wanted = λ k e. elim (Bool-cases (bytes_eq topic k)) [
    | inl s ↦ inr (rw s)
    | inr s ↦ elim (h.wanted k (sym (lists k s) ∙ e)) [
      | inl x ↦ inl (tables k ∙ rw s x)
      | inr x ↦ inr (rw s x)
    ]
  ];
}

other_kept :
    (a : Answer) (topic : Bytes) (ts : List Bytes) (k : Bytes)
    → bytes_eq topic k ≡ false
    → member k (carried_out a (drop_topic topic) ts) ≡ member k ts
other_kept accepted topic ts k s = member-drop topic k ts ∙ rw s
other_kept refused topic ts k s = refl
other_kept lost topic ts k s = member-drop topic k ts ∙ rw s

-- The last handler of a topic is removed.
pub Near-drop :
    (a : Answer) (topic : Bytes) (ts : List Bytes) (subs : Dict (List ℕ)) (g : Gaps)
    → IsNear ts subs g
    → IsNear (carried_out a (drop_topic topic) ts) (delete topic subs) (note a topic g)
Near-drop accepted topic ts subs g h = record {
  served = λ k e. ground (arith, handled-delete topic k subs, member-drop topic k ts, h.served k);
  wanted = λ k e. ground (arith, handled-delete topic k subs, member-drop topic k ts, h.wanted k);
}
Near-drop refused topic ts subs g h =
    Near-left topic ts ts subs (delete topic subs) g (other_kept refused topic ts)
      (λ k. handled-delete topic k subs) h
Near-drop lost topic ts subs g h =
    Near-left topic ts (drop_topic topic ts) subs (delete topic subs) g (other_kept lost topic ts)
      (λ k. handled-delete topic k subs) h

-- The first handler of a topic is given up: its first request was carried out or not, and so was the second.
pub Near-given_up :
    (b : Answer) (topic : Bytes) (ids : List ℕ) (ts us : List Bytes) (subs : Dict (List ℕ))
    (g : Gaps)
    → ((k : Bytes) → bytes_eq topic k ≡ false → member k us ≡ member k ts)
    → IsNear ts subs g
    → IsNear
        (carried_out b (drop_topic topic) us)
        (delete topic (insert topic ids subs))
        (record g { stale = topic ∷ g.stale })
Near-given_up b topic ids ts us subs g others h =
    Near-left topic ts (carried_out b (drop_topic topic) us) subs
      (delete topic (insert topic ids subs)) g (λ k s. other_kept b topic us k s ∙ others k s)
      (λ k. handled-delete topic k (insert topic ids subs) ∙ elim (Bool-cases (bytes_eq topic k)) [
        | inl s ↦ rw s
        | inr s ↦ rw s (handled-insert topic k ids subs ∙ rw s)
      ])
      h

member-append :
    (k : Bytes) (xs ys : List Bytes) → member k (xs ++ ys) ≡ (member k xs || member k ys)
member-append k [] ys = refl
member-append k (x ∷ xs) ys = ground (arith, member-append k xs ys)

member-split :
    (k : Bytes) (test : Bytes → Bool) (ts : List Bytes)
    → member k ts ≡ (member k (kept_if (λ t. not (test t)) ts) || member k (kept_if test ts))
unfolding kept_if
member-split k test [] = refl
member-split k test (t ∷ ts) = ground (arith, member-split k test ts)

-- After resubscribeAll.
pub Near-up :
    (refuses : Bytes → Bool) (old : List Bytes) (subs : Dict (List ℕ))
    → IsNear
        (kept_if (λ t. not (refuses t)) (topics subs) ++ old)
        subs
        (record { missed = kept_if refuses (topics subs); stale = old })
Near-up refuses old subs = record {
  served = λ k e.
      let all = member-topics k subs in
      let split = member-split k refuses (topics subs) in
      let whole = member-append k (kept_if (λ t. not (refuses t)) (topics subs)) old in
      ground arith;
  wanted = λ k e.
      let all = member-topics k subs in
      let split = member-split k refuses (topics subs) in
      let whole = member-append k (kept_if (λ t. not (refuses t)) (topics subs)) old in
      ground arith;
}
