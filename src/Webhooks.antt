-- ===== src/Webhooks.antt =====
-- app/services/webhook_service.py: the webhook service, over the collections of webhooks and of
-- deliveries. A creation is two steps, the count with the checks and the insertion; any other call
-- is one. Each reading of a clock, each random token and each answer of a web server is an argument.
pub mod Data
pub mod Registry
pub mod Deliveries
pub mod Sending
pub mod Steps
pub mod Cases
pub mod Branches
pub mod Edits
pub mod Every
pub mod Balanced
pub mod Limits
pub mod Silent
pub mod Owners
pub mod Failures
use application_workflow_ser.Base.{List}
use application_workflow_ser.Webhooks.Data.{Platform, Request, Creation}

module _ (p : Platform) where
  open p use {Data, hooks, queue}

  -- The collections, and the requests sent so far, the last one first.
  pub record World : Type 0 where
    pub webhooks : hooks.Store
    pub deliveries : queue.Store
    pub sent : List (Request Data)
    -- The creations that wait for the database.
    pub creating : List Creation
