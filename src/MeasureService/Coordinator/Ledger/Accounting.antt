-- ===== src/MeasureService/Coordinator/Ledger/Accounting.antt =====
-- The receipts that the known jobs need always fit into the ledger:
-- crates/gz-measure-service/src/coordinator.rs, `enqueue`, `cancel_job` and `submit_result`, with
-- `can_admit` and `commit` of receipt.rs.
use graphzero.Base.{
  ℕ, suc, ◌≤◌, ◌≡◌, refl, ◌∙◌, sym, ◌⊎◌, inl, inr, true, none, some, List, [], ◌∷◌, length, arith,
}
use graphzero.Base.Assoc
use graphzero.Base.Sums.{IsMap, length-remove}
use graphzero.Base.Result.{ok}
use graphzero.MeasureService.Protocol.{ArtifactDescriptor, GraphArtifact}
use graphzero.MeasureService.Receipts
use graphzero.MeasureService.Receipts.{
  ReceiptLedger, memory, file, ReceiptState, missing, identical, conflict,
}
use graphzero.MeasureService.Coordinator.{CoordinatorConfig, Job, CoordinatorState}
use graphzero.MeasureService.Coordinator.Artifacts.{retain_artifacts, admit, release_artifact}
use graphzero.MeasureService.Coordinator.Sessions.{release_all}
use graphzero.MeasureService.Coordinator.Handlers.{admit_job}
use graphzero.MeasureService.Coordinator.Ledger.{Keeps, Room, Accounts}

Room-fewer : (ledger : ReceiptLedger) (n m : ℕ) → n ≤ m → Room ledger m → Room ledger n
Room-fewer (memory limit entries) n m h r = omega (arith, h, r)
Room-fewer (file entries) n m h r = tt

-- Admission leaves room for one more receipt.
pub can_admit-Room :
    (ledger : ReceiptLedger) (n : ℕ) → Receipts.can_admit ledger n ≡ true → Room ledger (suc n)
unfolding Receipts.can_admit
can_admit-Room (memory limit entries) n h = ground (arith, h)
can_admit-Room (file entries) n h = tt

-- The receipt of a known job takes the room of the job.
add-Room :
    (ledger : ReceiptLedger) (n j digest : ℕ)
    → Assoc.lookup j (Receipts.receipts ledger) ≡ none
    → Room ledger (suc n)
    → Room (Receipts.add ledger j digest) n
unfolding Receipts.add
add-Room (memory limit entries) n j digest h r =
    ground (arith, Assoc.length-insert_new j digest entries h, r)
add-Room (file entries) n j digest h r = tt

pub receipts-add :
    (ledger : ReceiptLedger) (j digest : ℕ)
    → Receipts.receipts (Receipts.add ledger j digest)
      ≡ Assoc.insert j digest (Receipts.receipts ledger)
unfolding Receipts.add
receipts-add (memory limit entries) j digest = refl
receipts-add (file entries) j digest = refl

module _ {Tx : Type 0} where
  pub Keeps-Accounts : (s t : CoordinatorState Tx) → Keeps s t → Accounts s → Accounts t
  Keeps-Accounts s t k v = record {
    apart = λ j h. rw (k.receipts) (v.apart j (sym (k.known j) ∙ h));
    room = rw (k.receipts, k.size) v.room;
  }

  release_artifact-receipts :
      (s : CoordinatorState Tx) (digest : ℕ) → (release_artifact s digest).receipts ≡ s.receipts
  unfolding release_artifact
  release_artifact-receipts s digest = ground arith

  pub release_all-receipts :
      (s : CoordinatorState Tx) (ds : List ArtifactDescriptor)
      → (release_all s ds).receipts ≡ s.receipts
  unfolding release_all
  release_all-receipts s [] = refl
  release_all-receipts s (d ∷ ds) =
      release_all-receipts (release_artifact s d.digest) ds ∙ release_artifact-receipts s d.digest

  retain_artifacts-receipts :
      (config : CoordinatorConfig) (s t : CoordinatorState Tx) (ds : List ArtifactDescriptor)
      (gs : List GraphArtifact)
      → retain_artifacts config s ds gs ≡ ok t
      → t.receipts ≡ s.receipts
  unfolding retain_artifacts admit
  retain_artifacts-receipts config s t ds gs h = ground (arith, h)

  -- A job is admitted only without a receipt, and with room for it.
  pub admit_job-accounts :
      (config : CoordinatorConfig) (s t : CoordinatorState Tx) (j : ℕ)
      (ds : List ArtifactDescriptor) (gs : List GraphArtifact)
      → admit_job config s j ds gs ≡ ok t
      → (t.receipts ≡ s.receipts)
        × (Assoc.lookup j (Receipts.receipts s.receipts) ≡ none)
        × (Receipts.can_admit s.receipts (length s.jobs) ≡ true)
  unfolding admit_job Receipts.contains
  admit_job-accounts config s t j ds gs h = (
    ground (arith, retain_artifacts-receipts config s t ds gs, h),
    ground (arith, h),
    ground (arith, h),
  )

  -- A job that leaves, with or without a receipt.
  pub removed-Accounts :
      (s t : CoordinatorState Tx) (j : ℕ) (job : Job)
      → IsMap s.jobs
      → Assoc.lookup j s.jobs ≡ some job
      → t.jobs ≡ Assoc.remove j s.jobs
      → (t.receipts ≡ s.receipts) ⊎ ((digest : ℕ) × (t.receipts ≡ Receipts.add s.receipts j digest))
      → Accounts s
      → Accounts t
  removed-Accounts s t j job m h e (inl r) v = record {
    apart = λ k n. rw r (v.apart k (ground (arith, simp e at n, Assoc.lookup-remove j k s.jobs)));
    room =
        rw (r, e)
          (Room-fewer s.receipts (length (Assoc.remove j s.jobs)) (length s.jobs)
            (omega (arith, length-remove j job s.jobs m h)) v.room);
  }
  removed-Accounts s t j job m h e (inr (digest, r)) v = record {
    apart = λ k n.
        rw (r, receipts-add s.receipts j digest)
          (ground (
            arith,
            v.apart k,
            Assoc.lookup-insert j k digest (Receipts.receipts s.receipts),
            Assoc.lookup-remove j k s.jobs,
            simp e at n,
          ));
    room =
        rw (r, e)
          (add-Room s.receipts (length (Assoc.remove j s.jobs)) j digest
            (v.apart j (ground (arith, h)))
            (Room-fewer s.receipts (suc (length (Assoc.remove j s.jobs))) (length s.jobs)
              (omega (arith, length-remove j job s.jobs m h)) v.room));
  }
