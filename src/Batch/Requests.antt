-- ===== src/Batch/Requests.antt =====
-- Counting items and refusals is not counting requests.
use st0x_oracle_server.World.{World}
use st0x_oracle_server.Batch.{
  record_item_outcome, record_items, aborting, strict_abort, item_outcome,
}
use st0x_oracle_server.Refusal.{AppError, code}
use st0x_oracle_server.Context.{OracleResponse}
use st0x_oracle_server.Base.{
  String, ℕ, List, Result, ◌≡◌, Bool-cases, ◌∷◌, ok, nat_beq, ◌∙◌, err, inl, [], refl, inr,
}

pub record_item_outcome-requests :
    (endpoint what : String) (count : ℕ) (w : World)
    → (record_item_outcome endpoint what count w).requests ≡ w.requests
unfolding record_item_outcome
record_item_outcome-requests endpoint what count w = elim (Bool-cases (nat_beq count 0)) [
  | inl e ↦ rw e refl
  | inr e ↦ rw e refl
]

pub record_items-requests :
    (endpoint : String) (items : List (Result AppError OracleResponse)) (w : World)
    → (record_items endpoint items w).requests ≡ w.requests
unfolding record_items
record_items-requests endpoint [] w = refl
record_items-requests endpoint (item ∷ items) w =
    record_items-requests endpoint items _
    ∙ record_item_outcome-requests endpoint (item_outcome item) 1 w

pub aborting-requests :
    {A : Type 0} (endpoint : String) (r : Result AppError A × World)
    → (aborting endpoint r).1.requests ≡ r.1.requests
unfolding strict_abort
aborting-requests endpoint (ok a, v) = refl
aborting-requests endpoint (err e, v) = record_item_outcome-requests endpoint (code e) 1 v
