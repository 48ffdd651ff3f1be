-- ===== src/Server/Broker/Delivery.antt =====
-- What a page that listens gets (internal/realtime/broker.go).
use job_flow_web_application.Prelude.{
  ℕ, ◌≤◌, List, [], ◌∷◌, ◌++◌, map, filter, length, not, eqb, ◌≡◌, inl, inr, Bool-cases, refl, ap,
  if◌then◌else◌,
}
use job_flow_web_application.Prelude.Text.{Text}
use job_flow_web_application.Server.Broker.{
  Listener, offer, publish_raw, write_one, write_next, connect, disconnect,
}

-- The first list is the second one without some of its elements.
pub data InOrder : List Text → List Text → Type 0 where
  nothing : InOrder [] []
  kept : {x : Text} {xs ys : List Text} → InOrder xs ys → InOrder (x ∷ xs) (x ∷ ys)
  lost : {y : Text} {xs ys : List Text} → InOrder xs ys → InOrder xs (y ∷ ys)

-- A connection, with the messages that were published since it was made.
pub record Session : Type 0 where
  pub listener : Listener
  pub published : List Text

abbrev pub listeners_of : List Session → List Listener
listeners_of sessions = map (λ s. s.listener) sessions

-- What is served: all that is written or waits, in the order of publication, with at most 16 waiting.
abbrev pub IsServed : Session → Type 0
IsServed s =
    (length s.listener.buffer ≤ 16)
    × InOrder (s.listener.written ++ s.listener.buffer) s.published
    × (length s.published ≤ 16 → s.listener.written ++ s.listener.buffer ≡ s.published)

abbrev pub hear : Text → Session → Session
hear body s = record { listener = offer body s.listener; published = s.published ++ body ∷ [] }

abbrev pub write_in : ℕ → Session → Session
write_in name s =
    if eqb s.listener.name name then record s { listener = write_one s.listener } else s

-- Pages come and go, messages are published, and what waits is written, in any order.
pub data Step (sessions : List Session) : List Session → Type 0 where
  connects :
      (name : ℕ)
      → Step sessions (
          sessions
          ++ record { listener = record { name = name; buffer = []; written = [] }; published = [] }
            ∷ [])
  disconnects : (name : ℕ) → Step sessions (filter (λ s. not (eqb s.listener.name name)) sessions)
  publishes : (body : Text) → Step sessions (map (hear body) sessions)
  writes : (name : ℕ) → Step sessions (map (write_in name) sessions)

pub data Reach : List Session → Type 0 where
  nobody : Reach []
  next : {before after : List Session} → Reach before → Step before after → Reach after

listeners_of-map :
    (f : Session → Session) (g : Listener → Listener) (sessions : List Session)
    → ((s : Session) → (f s).listener ≡ g s.listener)
    → listeners_of (map f sessions) ≡ map g (listeners_of sessions)
listeners_of-map f g [] same = refl
listeners_of-map f g (s ∷ sessions) same = rw (same s, listeners_of-map f g sessions same) refl

-- The steps do to the connections what the broker does.
pub listeners_of-publishes :
    (body : Text) (sessions : List Session)
    → listeners_of (map (hear body) sessions) ≡ publish_raw body (listeners_of sessions)
unfolding publish_raw
listeners_of-publishes body sessions =
    listeners_of-map (hear body) (offer body) sessions (λ s. refl)

pub listeners_of-writes :
    (name : ℕ) (sessions : List Session)
    → listeners_of (map (write_in name) sessions) ≡ write_next name (listeners_of sessions)
unfolding write_next
listeners_of-writes name sessions =
    listeners_of-map (write_in name) (λ l. if eqb l.name name then write_one l else l) sessions
      (λ s. elim (Bool-cases (eqb s.listener.name name)) [
        | inl this ↦ rw this refl
        | inr other ↦ rw other refl
      ])

pub listeners_of-connects :
    (name : ℕ) (sessions : List Session)
    → listeners_of (
        sessions
        ++ record { listener = record { name = name; buffer = []; written = [] }; published = [] }
          ∷ [])
      ≡ connect name (listeners_of sessions)
unfolding connect
listeners_of-connects name [] = refl
listeners_of-connects name (s ∷ sessions) = ap (s.listener ∷◌) (listeners_of-connects name sessions)

pub listeners_of-disconnects :
    (name : ℕ) (sessions : List Session)
    → listeners_of (filter (λ s. not (eqb s.listener.name name)) sessions)
      ≡ disconnect name (listeners_of sessions)
unfolding disconnect
listeners_of-disconnects name [] = refl
listeners_of-disconnects name (s ∷ sessions) = elim (Bool-cases (eqb s.listener.name name)) [
  | inl this ↦ rw this (listeners_of-disconnects name sessions)
  | inr other ↦ rw other (ap (s.listener ∷◌) (listeners_of-disconnects name sessions))
]
