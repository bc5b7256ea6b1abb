-- ===== src/Audit.antt =====
-- `class AuditChain` of audit.py. The digests and SHA-256 of a record's canonical JSON are parameters;
-- a payload is its JSON text. A line of the file is blank, no JSON, or a record with all its fields.
pub mod Chained
pub mod Tamper
use shogunet.Prelude.{
  ℕ, suc, ◌+◌, String, List, [], ◌∷◌, ◌++◌, Bool, true, false, ltb, ◌==◌, if◌then◌else◌, nat_eq, Eq,
}
use shogunet.Prelude.Dict.{elem}

pub record Record (D : Type 0) : Type 0 where
  pub seq : ℕ
  pub ts : String
  pub event : String
  pub payload : String
  pub prev : D
  pub hash : D

pub data Line (D : Type 0) : Type 0 where
  blank corrupt : Line D
  entry : Record D → Line D

-- A problem with its line, and with its record's number.
pub data Problem : Type 0 where
  corrupt_json : ℕ → Problem
  broken_link hash_mismatch duplicate_seq : ℕ → ℕ → Problem

pub record AuditChain (D : Type 0) : Type 0 where
  pub seq : ℕ
  pub tail : D
  pub file : List (Line D)

module _ {D : Type 0} ⦃e : Eq D⦄ (genesis : D) (digest : ℕ → String → String → String → D → D) where
  -- `_record_hash`
  abbrev pub record_hash : Record D → D
  record_hash r = digest r.seq r.ts r.event r.payload r.prev

  -- The loop of `_load_existing`; every hash that is written has 64 characters.
  unfoldable pub load_from : ℕ → D → List (Line D) → ℕ × D
  load_from seq tail [] = (seq, tail)
  load_from seq tail (blank ∷ rest) = load_from seq tail rest
  load_from seq tail (corrupt ∷ rest) = load_from seq tail rest
  load_from seq tail (entry r ∷ rest) = load_from (if ltb seq r.seq then r.seq else seq) r.hash rest

  -- The constructor, on a file with these lines.
  unfoldable pub open_chain : List (Line D) → AuditChain D
  unfolding load_from
  open_chain file =
      let (seq, tail) = load_from 0 genesis file in record { seq = seq; tail = tail; file = file }

  -- Where the write fails, the file stays as it was; the record's number and hash are taken.
  unfoldable pub append : Bool → String → String → String → AuditChain D → AuditChain D × Record D
  append written ts event payload a =
      let number = suc a.seq in
      let r : Record D = record {
        seq = number;
        ts = ts;
        event = event;
        payload = payload;
        prev = a.tail;
        hash = digest number ts event payload a.tail;
      } in
      (
        record {
          seq = number;
          tail = r.hash;
          file = if written then a.file ++ entry r ∷ [] else a.file;
        },
        r,
      )

  -- if record.get("hash") != expected, and if record.get("seq") in seen
  abbrev pub record_problems : ℕ → List ℕ → Record D → List Problem
  record_problems n seen r =
      (if r.hash == record_hash r then [] else hash_mismatch n r.seq ∷ [])
      ++ (if elem r.seq seen then duplicate_seq n r.seq ∷ [] else [])

  -- The loop of `verify`, from line `n`.
  unfoldable pub verify_from : ℕ → D → List ℕ → List (Line D) → List Problem
  verify_from n previous seen [] = []
  verify_from n previous seen (blank ∷ rest) = verify_from (suc n) previous seen rest
  verify_from n previous seen (corrupt ∷ rest) =
      corrupt_json n ∷ verify_from (suc n) previous seen rest
  verify_from n previous seen (entry r ∷ rest) =
      let skipped = verify_from (suc n) previous seen rest in
      let followed = verify_from (suc n) r.hash (r.seq ∷ seen) rest in
      if r.prev == previous
      then record_problems n seen r ++ followed
      else broken_link n r.seq ∷ skipped

  unfoldable pub verify : List (Line D) → List Problem
  unfolding verify_from
  verify file = verify_from 1 genesis [] file
