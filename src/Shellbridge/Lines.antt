-- ===== src/Shellbridge/Lines.antt =====
-- internal/shellbridge/logs.go: `forwardLines` cuts a byte stream into lines. A byte is a number.
pub mod Splitting
use inferia_worker.Common.{ℕ, List, [], ◌∷◌, ◌++◌, Bool, true, false, ◌==◌, if◌then◌else◌}

abbrev pub Bytes : Type 0
Bytes = List ℕ

abbrev pub newline : ℕ
newline = 10

-- An io.Reader by its answers: bytes without an error, until bytes (or none) with one.
pub data Reader : Type 0 where
  failing : Bytes → Reader
  reads : Bytes → Reader → Reader

-- What a pass over the data emits, and what it leaves in `partial`.
pub record Cut : Type 0 where
  pub emitted : List Bytes
  pub partial : Bytes

emit : Bytes → Cut → Cut
emit line c = record c { emitted = line ∷ c.emitted }

-- The loop over `data`; `line` is `data[start:i]`.
unfoldable pub cut : Bytes → Bytes → Cut
unfolding emit
cut line [] = record { emitted = []; partial = line }
cut line (b ∷ rest) =
    let shorter = cut [] rest in
    let longer = cut (line ++ (b ∷ [])) rest in if b == newline then emit line shorter else longer

-- The line without an end is emitted at the end of the stream, when it is not empty.
unfoldable pub flush : Bytes → List Bytes
flush [] = []
flush (b ∷ bs) = (b ∷ bs) ∷ []

-- One answer of `Read`, of which an empty one leaves `partial` as it is.
unfoldable pub take_in : Bytes → Bytes → Cut
unfolding cut
take_in partial [] = record { emitted = []; partial = partial }
take_in partial (b ∷ bs) = cut [] (partial ++ (b ∷ bs))

-- The successive arguments of `fn`.
unfoldable pub forward_lines : Bytes → Reader → List Bytes
unfolding take_in flush
forward_lines partial (failing bs) =
    let c : Cut = take_in partial bs in c.emitted ++ flush c.partial
forward_lines partial (reads bs rest) =
    let c : Cut = take_in partial bs in c.emitted ++ forward_lines c.partial rest
