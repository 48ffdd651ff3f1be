-- ===== src/Tests/Events.antt =====
-- The event broker at a concrete run.
use job_flow_web_application.Prelude.{List, [], ◌∷◌, map}
use job_flow_web_application.Prelude.Text.{txt}
use job_flow_web_application.Server.Broker.Delivery.{Session, hear, write_in}

-- A page connects, two messages are published and one is written.
abbrev page : Session
page = record { listener = record { name = 1; buffer = []; written = [] }; published = [] }

abbrev served : List Session
served = map (write_in 1) (map (hear (txt "b")) (map (hear (txt "a")) (page ∷ [])))
