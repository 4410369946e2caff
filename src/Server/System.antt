-- ===== src/Server/System.antt =====
-- The running auth service as a step relation: requests and sweeps, one after the other, in any
-- order (apps/auth/src/server.ts).
pub mod Invariants
use rsp_website.Prelude.{ℕ, ◌≡◌, some}
use rsp_website.Lifecycle.Store.{Db}
use rsp_website.Lifecycle.Machine.Hooks.{IsAdapter}
use rsp_website.Server.InternalApi.{Draws}
use rsp_website.Server.Http.{HttpEnv, Library, HttpRequest}
use rsp_website.Server.Requests.{Server, handle_request}
use rsp_website.Server.Sweeps.{
  DeletionDraws, DeliveryDraws, run_deletion_sweep, run_outbox_delivery,
}

pub data Step : Server → Server → Type 0 where
  requested :
      {s t : Server} (env : HttpEnv) (lib : Library) (r : HttpRequest) (d : Draws)
      → IsAdapter lib.adapter
      → t ≡ (handle_request env lib r d s).1
      → Step s t
  swept :
      {s t : Server} (fuel : ℕ) (x : DeletionDraws) (after : Db)
      → run_deletion_sweep fuel x s.db ≡ some after
      → t ≡ record s { db = after }
      → Step s t
  delivered :
      {s t : Server} (fuel : ℕ) (x : DeliveryDraws) (after : Db)
      → run_outbox_delivery fuel x s.db ≡ some after
      → t ≡ record s { db = after }
      → Step s t

-- what the service may come to
pub data Reach : Server → Server → Type 0 where
  start : {s t : Server} → t ≡ s → Reach s t
  next : {s t u : Server} → Reach s t → Step t u → Reach s u
