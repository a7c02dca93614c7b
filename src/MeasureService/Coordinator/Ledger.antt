-- ===== src/MeasureService/Coordinator/Ledger.antt =====
-- crates/gz-measure-service/src/coordinator.rs with receipt.rs: which jobs the coordinator knows and
-- which have a receipt.
pub mod Unchanged
pub mod Connections
pub mod Accounting
pub mod Follows
pub mod Durable
use graphzero.Base.{
  suc, [], ◌∷◌, if◌then◌else◌, ◌==◌, ℕ, ◌+◌, ◌≤◌, ◌≡◌, refl, ◌∙◌, Bool, true, false, Option, none,
  some, length, List,
}
use graphzero.Base.Assoc
use graphzero.MeasureService.Receipts
use graphzero.MeasureService.Receipts.{ReceiptLedger, memory, file}
use graphzero.Base.Sums.{sum_by}
use graphzero.MeasureService.Protocol.{ArtifactDescriptor}
use graphzero.MeasureService.Coordinator.{Job, CoordinatorState}

-- How often a list of descriptors names a digest, and how often the known jobs do.
unfoldable pub named_in : ℕ → List ArtifactDescriptor → ℕ
named_in digest [] = 0
named_in digest (d ∷ ds) =
    if d.digest == digest then suc (named_in digest ds) else named_in digest ds

abbrev pub named : ℕ → List (ℕ × Job) → ℕ
named digest jobs = sum_by (λ (job : Job). named_in digest job.descriptors) jobs

-- The same artifacts are stored.
abbrev pub SameStore : {Tx : Type 0} → CoordinatorState Tx → CoordinatorState Tx → Type 0
SameStore s t = (t.artifacts ≡ s.artifacts) × (t.artifact_bytes ≡ s.artifact_bytes)

-- The same jobs are known with the same artifacts, and artifacts and receipts are the same.
pub record Keeps {Tx : Type 0} (s t : CoordinatorState Tx) : Type 0 where
  pub receipts : t.receipts ≡ s.receipts
  pub known : (k : ℕ) → Assoc.has k t.jobs ≡ Assoc.has k s.jobs
  pub size : length t.jobs ≡ length s.jobs
  pub named_same : (digest : ℕ) → named digest t.jobs ≡ named digest s.jobs
  pub store : SameStore s t

-- So many more entries fit into the ledger.
abbrev pub Room : ReceiptLedger → ℕ → Type 0
Room (memory limit entries) n = n + length entries ≤ limit
Room (file entries) n = Unit {0}

-- A known job has no receipt yet, and there is room for the receipts of all known jobs.
pub record Accounts {Tx : Type 0} (s : CoordinatorState Tx) : Type 0 where
  pub apart :
      (k : ℕ) → Assoc.has k s.jobs ≡ true → Assoc.lookup k (Receipts.receipts s.receipts) ≡ none
  pub room : Room s.receipts (length s.jobs)

module _ {Tx : Type 0} where
  pub Keeps-refl : (s : CoordinatorState Tx) → Keeps s s
  Keeps-refl s = record {
    receipts = refl;
    known = λ k. refl;
    size = refl;
    named_same = λ g. refl;
    store = (refl, refl);
  }

  pub Keeps-trans : (s t u : CoordinatorState Tx) → Keeps s t → Keeps t u → Keeps s u
  Keeps-trans s t u p q = record {
    receipts = q.receipts ∙ p.receipts;
    known = λ k. q.known k ∙ p.known k;
    size = q.size ∙ p.size;
    named_same = λ g. q.named_same g ∙ p.named_same g;
    store = (q.store.0 ∙ p.store.0, q.store.1 ∙ p.store.1);
  }

  -- An entry of a known job is replaced.
  pub Keeps-jobs :
      (s t : CoordinatorState Tx)
      → t.receipts ≡ s.receipts
      → t.jobs ≡ s.jobs
      → SameStore s t
      → Keeps s t
  Keeps-jobs s t r j store = record {
    receipts = r;
    known = λ k. rw j refl;
    size = rw j refl;
    named_same = λ g. rw j refl;
    store = store;
  }
