-- ===== src/MeasureService/Receipts.antt =====
-- crates/gz-measure-service/src/receipt.rs: which jobs have a committed report, by the digest of
-- the report. The digest (blake3 of the encoded report) and the write of a record to the log file
-- are arguments: `written` says whether the record fits and the write and the sync succeed.
use graphzero.Base.{
  ℕ, ◌+◌, Bool, true, false, Option, none, some, List, [], if◌then◌else◌, ◌==◌, ltb, leb, length,
  u64_mod,
}
use graphzero.Base.Assoc
use graphzero.Base.Result.{Result, ok, err}
use graphzero.MeasureService.Protocol.{ServiceError, capacity, configuration}

pub data ReceiptLedger : Type 0 where
  memory : ℕ → List (ℕ × ℕ) → ReceiptLedger
  file : List (ℕ × ℕ) → ReceiptLedger

pub data ReceiptState : Type 0 where
  missing identical conflict : ReceiptState

abbrev pub receipts : ReceiptLedger → List (ℕ × ℕ)
receipts (memory limit entries) = entries
receipts (file entries) = entries

-- `ReceiptLedgerConfig::validate` and `open` of a memory ledger.
unfoldable pub open_memory : ℕ → Result ServiceError ReceiptLedger
open_memory limit =
    if limit == 0
    then err (configuration "receipt ledger capacity must be greater than zero")
    else ok (memory limit [])

-- A sum beyond `usize` admits nothing.
unfoldable pub can_admit : ReceiptLedger → ℕ → Bool
can_admit (memory limit entries) active_jobs =
    if ltb (active_jobs + length entries) u64_mod
    then ltb (active_jobs + length entries) limit
    else false
can_admit (file entries) active_jobs = true

abbrev pub state_of : Option ℕ → ℕ → ReceiptState
state_of none digest = missing
state_of (some expected) digest = if expected == digest then identical else conflict

unfoldable pub state : ReceiptLedger → ℕ → ℕ → ReceiptState
state ledger job_id digest = state_of (Assoc.lookup job_id (receipts ledger)) digest

abbrev pub is_some {ℓ} : {A : Type ℓ} → Option A → Bool
is_some none = false
is_some (some a) = true

unfoldable pub contains : ReceiptLedger → ℕ → Bool
contains ledger job_id = is_some (Assoc.lookup job_id (receipts ledger))

-- The ledger with a new entry.
unfoldable pub add : ReceiptLedger → ℕ → ℕ → ReceiptLedger
add (memory limit entries) job_id digest = memory limit (Assoc.insert job_id digest entries)
add (file entries) job_id digest = file (Assoc.insert job_id digest entries)

-- Whether a new entry can be stored, and the error where it cannot.
unfoldable pub refusal : ReceiptLedger → Result ServiceError (Unit {0}) → Option ServiceError
refusal (memory limit entries) written =
    if leb limit (length entries)
    then some (capacity "coordinator receipt ledger is full")
    else none
refusal (file entries) (ok u) = none
refusal (file entries) (err e) = some e

unfoldable pub commit :
    ReceiptLedger
    → ℕ
    → ℕ
    → Result ServiceError (Unit {0})
    → Result ServiceError (ReceiptState × ReceiptLedger)
unfolding refusal add
commit ledger job_id digest written = elim (Assoc.lookup job_id (receipts ledger)) [
  | some existing ↦ ok (if existing == digest then identical else conflict, ledger)
  | none ↦ elim (refusal ledger written) [
    | some e ↦ err e
    | none ↦ ok (missing, add ledger job_id digest)
  ]
]
