-- ===== src/Server/Broker.antt =====
-- The events that the server sends to the pages that listen (internal/realtime/broker.go). A message is
-- its body; the lock makes each operation one step.
pub mod Delivery
use job_flow_web_application.Prelude.{
  ℕ, List, [], ◌∷◌, ◌++◌, map, filter, length, not, eqb, ltb, if◌then◌else◌,
}
use job_flow_web_application.Prelude.Text.{Text}

-- A connection: its channel of 16 places, and what was written to it, in order.
pub record Listener : Type 0 where
  pub name : ℕ
  pub buffer : List Text
  pub written : List Text

-- `select { case client <- body: default: }`
abbrev pub offer : Text → Listener → Listener
offer body l = if ltb (length l.buffer) 16 then record l { buffer = l.buffer ++ body ∷ [] } else l

unfoldable pub publish_raw : Text → List Listener → List Listener
publish_raw body listeners = map (offer body) listeners

-- A message that waits is written.
abbrev write_from : List Text → Listener → Listener
write_from [] l = l
write_from (body ∷ rest) l = record l { buffer = rest; written = l.written ++ body ∷ [] }

abbrev pub write_one : Listener → Listener
write_one l = write_from l.buffer l

unfoldable pub write_next : ℕ → List Listener → List Listener
write_next name listeners = map (λ l. if eqb l.name name then write_one l else l) listeners

unfoldable pub connect : ℕ → List Listener → List Listener
connect name listeners = listeners ++ record { name = name; buffer = []; written = [] } ∷ []

unfoldable pub disconnect : ℕ → List Listener → List Listener
disconnect name listeners = filter (λ l. not (eqb l.name name)) listeners
