-- ===== src/FileSource.antt =====
-- src/source/file_jsonl_source.h and src/source/file_jsonl_source.cpp: the replay of a file. The
-- file's contents are a parameter; the object holds what `std::getline` has not read yet.
mod Tests
use asnprefix_map.Base.{
  ℕ, zero, suc, ◌+◌, ◌≡◌, refl, ap, Bool, true, false, not, Option, none, some, List, [], ◌∷◌, ◌++◌,
  Bytes, Result, ok, err, file_not_opened, is_empty, ◌==◌, nat_eq, if◌then◌else◌, length, ◌≤◌, ◌<◌,
  arith,
}
use asnprefix_map.Base.Text.{lines, codes}

pub record FileJsonlSource : Type 0 where
  pub input : List Bytes

-- The constructor; there are no contents where the file cannot be opened.
unfoldable pub open_source : Bytes → Option Bytes → Result FileJsonlSource
open_source path none = err (file_not_opened path)
open_source path (some contents) = ok (record { input = lines contents })

-- The loop of `next_message` over the lines that are left.
unfoldable pub next_line : List Bytes → List Bytes × Option Bytes
next_line [] = ([], none)
next_line (line ∷ input) =
    let rest = next_line input in if is_empty line then rest else (input, some line)

unfoldable pub next_message : FileJsonlSource → FileJsonlSource × Option Bytes
next_message s = let (input, json) = next_line s.input in (record { input = input }, json)

-- The messages that calls of `next_message` give until one returns false, `fuel` calls at most.
pub drain : ℕ → FileJsonlSource → List Bytes
drain zero s = []
drain (suc fuel) s = elim (next_message s).1 [
  | none ↦ []
  | some json ↦ json ∷ drain fuel (next_message s).0
]

-- The lines that are not empty.
unfoldable pub filled : List Bytes → List Bytes
filled [] = []
filled (line ∷ input) = let rest = filled input in if is_empty line then rest else line ∷ rest

drain_lem :
    (fuel : ℕ) (input : List Bytes)
    → length input < fuel
    → drain fuel (record { input = input }) ≡ filled input
unfolding drain next_message next_line filled
drain_lem zero input h = absurd (omega arith)
drain_lem (suc fuel) [] h = refl
drain_lem (suc fuel) ([] ∷ input) h = drain_lem (suc fuel) input (omega arith)
drain_lem (suc fuel) ((c ∷ cs) ∷ input) h =
    ap (λ r. (c ∷ cs) ∷ r) (drain_lem fuel input (omega arith))

-- A file that can be opened is replayed as its lines that are not empty, in order, and then ends; one
-- more call than the file has lines is enough.
pub replay_lem :
    (path contents : Bytes) (s : FileJsonlSource)
    → open_source path (some contents) ≡ ok s
    → drain (suc (length (lines contents))) s ≡ filled (lines contents)
unfolding open_source
replay_lem path contents s h =
    let e : s ≡ record { input = lines contents } = ground arith in
    rw e (drain_lem (suc (length (lines contents))) (lines contents) (omega arith))
