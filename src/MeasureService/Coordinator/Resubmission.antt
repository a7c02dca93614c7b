-- ===== src/MeasureService/Coordinator/Resubmission.antt =====
-- Reports that are sent again, by an agent that did not hear of the commit:
-- crates/gz-measure-service/src/coordinator.rs, `submit_result`.
use graphzero.Base.Assoc
use graphzero.Base.Result.{Result}
use graphzero.MeasureService.Receipts
use graphzero.MeasureService.Coordinator.{CommandChannel, CoordinatorConfig, CoordinatorState}
use graphzero.MeasureService.Coordinator.Handlers.{Hashes}
use graphzero.MeasureService.Coordinator.Invariant.Reachable.{Step, Reachable}

module _ {Tx : Type 0} ⦃channel : CommandChannel Tx⦄ (config : CoordinatorConfig) (h : Hashes) where
  -- The states that a state leads to.
  pub data Later (s : CoordinatorState Tx) : CoordinatorState Tx → Type 0 where
    now_same : Later s s
    later : (t u : CoordinatorState Tx) → Later s t → Step config h t u → Later s u
