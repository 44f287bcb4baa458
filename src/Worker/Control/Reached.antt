-- ===== src/Worker/Control/Reached.antt =====
-- The states that a worker (worker/src/lib.rs) reaches.
use llm_chat.Json.{Json}
use llm_chat.Worker.AppState.{AppState}
use llm_chat.Worker.AppState.Synced.{IsSynced}
use llm_chat.Worker.Provisioning.InFlight.{IsInFlight}
use llm_chat.Worker.Control.{Host, State}

module _ (host : Host) where
  -- The sessions of the worker are in step, and so are its migrations.
  pub record IsSound (st : State host) : Type 0 where
    pub sessions : IsSynced st.app
    pub migrations : IsInFlight host.fs host.debug host.show_ℤ host.base host.from_str st.boxes
