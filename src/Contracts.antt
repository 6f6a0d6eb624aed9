-- ===== src/Contracts.antt =====
-- utils/validate_contracts.py: the samples of the contracts against their schemas. The files, and the
-- errors that jsonschema finds, are the record Files; a file that is no JSON is left out.
pub mod Exits
mod Tests
use Prim.Native.String
use event_driven_trading_led.Base.{
  ℕ, ◌+◌, ◌-◌, String, Bool, true, false, not, List, [], ◌∷◌, map, nat_eq, if◌then◌else◌,
}
use event_driven_trading_led.Base.Text.{joined}

pub record Files : Type 0 where
  -- whether the folder of the samples is there
  pub samples_dir : Bool
  -- the names of its files that end in `.sample.json`, sorted
  pub samples : List String
  -- whether a schema of this file name is there
  pub is_schema : String → Bool
  -- how many errors a schema finds in a sample, by their file names
  pub errors : String → String → ℕ

pub record Pair : Type 0 where
  pub name : String
  pub sample : String
  pub schema : String

-- `sample_path.name[: -len(".sample.json")]`
pub pair_of : String → Pair
pair_of sample =
    let name = String.slice sample 0 (String.len sample - 12) in
    record { name = name; sample = sample; schema = joined (name ∷ ".schema.json" ∷ []) }

pub discover_pairs : Files → List Pair
discover_pairs files = map pair_of files.samples

-- whether the loop counts a failure for a pair
pub is_failure : Files → Pair → Bool
is_failure files p =
    if not (files.is_schema p.schema) then true else not (nat_eq (files.errors p.schema p.sample) 0)

pub count_failures : Files → List Pair → ℕ → ℕ
count_failures files [] failures = failures
count_failures files (p ∷ ps) failures =
    count_failures files ps (if is_failure files p then failures + 1 else failures)

pub exit_of : Files → List Pair → ℕ
exit_of files [] = 2
exit_of files (p ∷ ps) = if nat_eq (count_failures files (p ∷ ps) 0) 0 then 0 else 1

-- `main`: the exit code
pub validate_main : Files → ℕ
validate_main files = if files.samples_dir then exit_of files (discover_pairs files) else 2
